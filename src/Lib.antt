-- ===== src/Lib.antt =====
-- OpenDisplay for ESPHome: a BLE peripheral that takes an image from a client and puts it on an
-- e-paper panel.
--
-- The program is the component components/opendisplay. The BLE callback queues each written packet
-- in a receive ring. The main loop takes packets from it, parses the opcode and calls the transfer
-- engine, which keeps the one transaction of the device: it accounts for the bytes and sequence
-- numbers of a direct transfer (0x0070 to 0x0072) or a pipe transfer (0x0080 to 0x0082), hands the
-- data to a display backend, starts the refresh when the frame is whole, and watches the deadlines.
-- Its responses leave through a transmit ring. Two backends adapt ESPHome's display drivers.
--
-- Base      shared names, the words of 8, 16 and 32 bits, Boolean tests, and lemmas on lists.
-- Types     components/opendisplay/protocol_types.h: states, errors, capabilities, results.
-- Wire      the wire constants of opendisplay_protocol.h, opendisplay_structs.h and protocol.h.
-- Protocol  protocol.cpp and protocol.h. Frame and Response have parse_frame and the responses,
--           PipeStart parse_pipe_start, Sack the SACK, NACK and mask, Version encode_version, Msd
--           build_msd, Crc the CRC, Config build_config_blob, and Chunk encode_config_chunk.
-- Transport ble_transport.cpp and ble_transport.h: RxQueue::push is rx_push, and so on. Window and
--           Fifo are the abstract queue, Rx and Tx the refinements. Shared is the receive ring with
--           push and pop statement by statement, the callback and the loop taking turns.
-- Backend   backend.h as a record of operations over the state of an implementation. Epaper is
--           backend_epaper_spi.cpp and It8951 is backend_it8951.cpp, both over Driver, what they
--           use of the display driver. Pixels is the drawing loop of the epaper_spi backend. Alike
--           compares the two backends, and Settle and Pixels.Drawn are proofs.
-- Engine    transfer_engine.cpp and transfer_engine.h. State has the records and the terminal
--           paths, Start both START handlers, Direct and Pipe the DATA and END handlers, Finish
--           finish_and_refresh_, and Tick tick; Calls is one call of the engine, and a sequence of
--           calls; Names has the texts of states and errors. Invariant, Trace, Terminal, Deadline
--           and Stalled are proofs. Delivery is the interface Canvas, a backend that takes a frame
--           and shows it, and what a transfer over such a backend comes to.
-- Component opendisplay.cpp and opendisplay.h. State has the members and the BLE callbacks, Respond
--           send_, apply_result_, send_config_ and drain_tx_, Dispatch handle_packet_,
--           update_msd_, publish_state_ and loop, Setup setup, Gatt setup_gatt_ and
--           apply_ble_name_, Temperature the chip's sensor, and Names opcode_name. History is the
--           component under a sequence of events, with the calls of the engine that opendisplay.cpp
--           makes in answer, and Visit one packet from its write to its handler. Order, Stale, Sound,
--           Kept, Refine, Frames, Config, Heard and Answered are proofs.
-- System    the engine with the backends of the repository. Image says what is relied on of a panel
--           and what an image on it is; Image.Epaper makes the epaper_spi backend a Canvas,
--           Image.Client and Image.PipeClient have the writes of a client that sends an image, and
--           Image.Acknowledged what that client is sent.
-- Tests     concrete devices, panels, packets and rings.
--
-- A member function takes its object's state and returns the new state beside its result, and the
-- handlers of the engine have the source's names. Integers are natural numbers with the wrap of
-- their C++ type written out (u8, u16, u32, sub32). A pointer to data and its length are an option
-- of a list and a number; bytes past the end of the list read as 0. A null pointer is none. A
-- response is the list of its bytes, without the fixed buffer. A loop over a buffer or a count is
-- recursion on it. The loop of send_config_, which counts up until a chunk is empty, is recursion on
-- fuel, one more than the blob has bytes, and that is enough.
--
-- The display drivers, the clock and the GATT server are ESPHome's and are parameters, as are the
-- answers of ESP-IDF. Each call on a ring is one step; in Transport.Shared each access of a member of
-- the receive ring is one, which takes effect at once: what the C++ memory model leaves open between
-- two cores is not modelled. Logging and dump_config are left out, and what the component tells its
-- callbacks, sensors and client is recorded in its state. The GATT service with the device name and the chip
-- temperature have states of their own, since no other member reads theirs: setup takes whether the
-- service was made, and update_msd_ the temperature as it is encoded. The Python code generation is
-- not modelled, and of the headers copied from the OpenDisplay project only what the component uses
-- is.
pub mod Base
pub mod Types
pub mod Wire
pub mod Protocol
pub mod Backend
pub mod Transport
pub mod Engine
pub mod Component
pub mod System
pub mod Tests
