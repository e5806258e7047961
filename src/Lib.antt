-- ===== src/Lib.antt =====
-- NexusFIX: the FIX session layer, its message store, and the parser and builders of its messages.
--
-- A session (include/nexusfix/session/session_manager.hpp) reads bytes with the parser
-- (include/nexusfix/parser), numbers what it sends and checks the numbers that it reads
-- (include/nexusfix/session/sequence.hpp), moves through the states of a transition table
-- (include/nexusfix/session/state.hpp), builds its own messages with an assembler
-- (include/nexusfix/messages), and keeps what it sent in a store (include/nexusfix/store) to send it
-- again. The model follows this division:
--
--   Base      numbers as machine words, lists and Boolean tests that all parts share
--   Types     include/nexusfix/types and interfaces: error codes, tags, message types, the checksum
--   Parser    include/nexusfix/parser: FieldView (field_view.hpp), Header and Frame
--             (consteval_parser.hpp), Message, Indexed and Stream (runtime_parser.hpp), Vector and
--             Boundary (simd_scanner.hpp; its scalar scanner is with Message), FieldTable
--             (field_view.hpp), Timestamp (timestamp_parser.hpp), Group (repeating_group.hpp)
--   Messages  include/nexusfix/messages: Assembler (common/trailer.hpp), Fix44 (fix44/logon.hpp and
--             fix44/heartbeat.hpp)
--   Memory    include/nexusfix/memory: Spsc (spsc_queue.hpp)
--   Sbe       include/nexusfix/sbe: Bytes and Fields (types), Header (message_header.hpp),
--             NewOrderSingle and ExecutionReport (codecs), Dispatch (sbe.hpp)
--   Store     include/nexusfix/store: Interface (i_message_store.hpp), Memory
--             (memory_message_store.hpp)
--   Session   include/nexusfix/session: State (state.hpp), Sequence and Gaps (sequence.hpp), and of
--             session_manager.hpp Heartbeat (the timer), Context (the members), Sending, Admin (the
--             handlers), Clock and Manager (the methods that the application calls)
--   Tests     runs at concrete inputs
--
-- A method that changes an object is a function from its state to its state, with the result in front
-- where it has one; a function keeps the method's name. Bytes are numbers, a view of a buffer is a
-- copy of its bytes. An `uint32_t` wraps where the code adds to it; counters of 64 bits are not
-- taken to wrap. The clocks and the timestamp text are read once for each call and are parameters.
-- The calls of the application's callbacks are a trace in the session, and what `on_send` answers may
-- depend on the whole trace. A store is any record of operations over a state; that a read of the
-- store may not return is the result `none`. The two threads of the queue take their steps in any
-- order, one access to a shared variable in each step. The codecs with a fixed layout read and write
-- a buffer in place; nothing else of the model uses them or the queue.
--
-- Fuel: `header_loop` has one round more than the buffer has bytes, and each round takes a byte;
-- `index_loop`, `feed_loop` and the loops over a repeating group likewise; the loops of
-- `find_message_boundary` move on by a byte or more in each round and have as many rounds as the
-- buffer has bytes; `fill` has 128 rounds, and no more than 65 are needed for 32 slots;
-- `retrieve_range` has more rounds than a `uint32_t` has values; the loop over decimal digits has 21
-- rounds, and a number of 64 bits has at most 20 digits.
--
-- Not modelled: the vector checksum and the structural index, other FIX versions and the application
-- messages, the typed entries of a repeating group, the transport and engine, the other queues and
-- pools, and the utilities for the platform. The memory resource of the store is a parameter that
-- grants or refuses.
pub mod Base
pub mod Types
pub mod Parser
pub mod Messages
pub mod Store
pub mod Memory
pub mod Sbe
pub mod Session
pub mod Tests
