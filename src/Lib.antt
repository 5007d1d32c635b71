-- ===== src/Lib.antt =====
-- Verification library of UniMRCP, an MRCP server and client in C. It models the part of the
-- program that decides what an MRCP request means: messages with their headers, and the four
-- state machines of the engine library; a queue of the toolkit that its tasks share; and the voice
-- activity detector.
--
-- The parts and their files (paths from the repository's root):
--   * HeaderSection (libs/apr-toolkit/src/apt_header_field.c): the ring of header fields of a
--     message with the array of pointers that indexes it. A field is named by its position in the
--     ring, so a write through the array shows in the ring, as it does in C.
--   * GenericHeader (libs/mrcp/message/src/mrcp_generic_header.c): the data of the generic header
--     and its list of at most five active request identifiers.
--   * MessageHeader (libs/mrcp/message/src/mrcp_header.c, mrcp_header_accessor.c): both header
--     accessors over one section. The function pointers of `mrcp_header_vtable_t` are the record
--     HeaderVtable, which the functions take; the data of a resource's header has any type R.
--   * Message (libs/mrcp/message/src/mrcp_message.c): messages, and the creation of requests,
--     responses and events. `mrcp_resource_t` is the record Resource.
--   * StateMachine (libs/mrcp-engine/include/mrcp_state_machine.h): what the state machines share.
--     StateMachine.Reachable is their step relation, StateMachine.Runs their
--     runs over lists of messages.
--   * Synth, Recog, Recorder, Verifier (libs/mrcp-engine/src/mrcp_synth_state_machine.c,
--     mrcp_recog_, mrcp_recorder_ and mrcp_verifier_state_machine.c): one function per C function,
--     with its name less the prefix of its file. Update holds the tables of methods and the entry
--     points; the other children hold the handlers, or what is proved of them (Served of runs over
--     queued requests).
--   * CyclicQueue (libs/apr-toolkit/src/apt_cyclic_queue.c): the growing queue of the poller tasks
--     and of the media engine.
--   * ActivityDetector (libs/mpf/src/mpf_activity_detector.c): the voice activity detector of the
--     media framework. `process_level` is what `mpf_activity_detector_process` does with a level.
--   * StringTable (libs/apr-toolkit/src/apt_string_table.c, include/apt_string.h): tables of names,
--     searched without regard to case.
--   * TextStream (libs/apr-toolkit/src/apt_text_stream.c): positions in a text, and the reading of
--     lines and fields; Insert is the writing, Values numbers and booleans, Decimal what the C library
--     prints and reads, Pairs (with src/apt_pair.c) arrays of name=value pairs. The other children say how fields, header lines and lengths are read back.
--   * TextMessage (libs/apr-toolkit/src/apt_text_message.c): header fields and sections in text.
--   * StartLine (libs/mrcp/message/src/mrcp_start_line.c): the parser; Generate is the generation and
--     the finalization; Parse has what a start-line says (Line), Message the way of a start-line from
--     one side to the other. GenericHeader.IdList is the text of the identifier list,
--     GenericHeader.VendorParams that of the vendor-specific parameters, and
--     GenericHeader.FieldValues the reading and writing of every field of the generic header.
--   * Prelude: library names, Boolean tests and list functions over the native numbers.
--
-- How C becomes a definition. A handler takes the machine's state and a message and returns the
-- next state and the returned status, or `none` where the code reads through a null pointer. The
-- callbacks `on_dispatch` and `on_deactivate` append to the field `out`, oldest first; they answer
-- TRUE, as those of libs/mrcp-server/src/mrcp_server_session.c do. Request identifiers are 32-bit,
-- and the one addition to them wraps. Loops over a list are structural recursions. The loops of the
-- header parser take as fuel the bytes that are left plus one, as a round takes a byte at least, and
-- the count of the digits of a 64-bit number takes 20. A text in memory is the list of its bytes from
-- the pointer on; a write past the end of a stream gives `none`. `apr_snprintf` is a parameter, with
-- its documented behaviour as the hypothesis Prints. A response with the
-- identifier of the active request is expected to have its method (`AnswersActive`), as
-- `mrcp_response_create` makes them; requests, events and other responses are arbitrary.
--
-- Not modelled: log output; memory pools; the incremental parser of messages and the text
-- of resources' header fields; floating point values in text; the server session, which
-- may update a state machine again from within `on_dispatch`; clients, transports, other
-- media processing, RTSP, plugins and platforms. Removal from a header section is not modelled, so
-- positions in its ring stay valid. Sizes of a cyclic queue are below the range of `apr_size_t`,
-- and its `malloc` succeeds; a slot that it leaves uninitialised holds an arbitrary element. So does a
-- new element of an array of pairs (`pushed`), and the memory behind a text is arbitrary.
pub mod Prelude
pub mod HeaderSection
pub mod GenericHeader
pub mod MessageHeader
pub mod Message
pub mod StateMachine
pub mod Synth
pub mod StringTable
pub mod TextStream
pub mod TextMessage
pub mod StartLine
pub mod Recog
pub mod Recorder
pub mod Verifier
pub mod CyclicQueue
pub mod ActivityDetector
