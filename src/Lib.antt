-- ===== src/Lib.antt =====
-- A model of ds4-rs, a server for language models: its sessions, the cache of session snapshots and
-- its file format, the continuations, the loader of model files, the protocol of its requests and
-- responses, and what the server does with a request. A request is parsed (Protocol/Request), takes
-- up an earlier session by a continuation, is fed to the session, and its response is printed
-- (Protocol/Render, Protocol/Stream) while the session's snapshot is stored and remembered.
--
-- The parts and where they are modelled:
--   Error, Error/NoPanic: src/error.rs. Result has a third case for a panic, so that the absence of
--     panics is a statement.
--   Types: src/types.rs, `Tokens` and its operations.
--   Bytes, Utf8, Maps, Text: what the code uses of byte slices, of `str::from_utf8`, of `HashMap`,
--     and of `str`, `char` and `format!`.
--   Kv: src/kv.rs. Kv/Format, Kv/Entry, Kv/ToolMap and Kv/Payload are the file format, Kv/Store/Disk
--   is `KvDiskStore`, Kv/Store is `KvCache`, and Kv/Transformer is the cache of keys and values.
--   Sha1: `sha1_digest` and `sha1_hex` of src/kv.rs, which name the files.
--   Engine: src/engine/inference.rs. A session drives the engine through this interface.
--   Engine/Open: src/engine.rs, what an engine is made of, from a model file.
--   Weights: src/weights.rs.
--   Protocol: src/protocol.rs and the files under src/protocol. Protocol/Request is the parsers,
--     Protocol/Arguments the arguments of tool calls and their markup, Protocol/Escape the escapes,
--     Protocol/Render and Protocol/Stream the printed responses.
--   Server: src/server.rs and the files under src/server. Server/Tools chooses a tool, Server/Reply
--     and Server/Preview are the replies, Server/Replay puts in the text of an earlier call,
--     Server/State is the state, Server/Generate a response, Server/Handle is `handle_api`,
--     Server/Routes `Server::new` and the routes, Server/Steps the states that requests lead to,
--     Server/Shown what the body of an answer shows of the response,
--     and Server/Kept what the operations behind them keep.
--   Session: src/session.rs. Session/Snapshot is the snapshot that Kv stores, Session/Sampling the
--   greedy choice and generation, Session/Steps the methods as a step relation,
--   Session/Changes also the loading of snapshots, Session/Fed the feed of a checkpoint, and
--   Session/Timeline what the methods promise, without
--   the cache.
--   Continuation: src/continuation.rs.
--   Gguf: src/gguf.rs. Gguf/Reader is `Reader`, Gguf/Values the metadata values, Gguf/Tensors the
--   table of tensors, and Gguf/Load is `load_model`.
--   Tokenizer: src/tokenizer.rs, the vocabulary and its special tokens. Tokenizer/Bpe is byte-pair
--     merging, Tokenizer/Pieces cuts a text into pieces, Tokenizer/Decode turns tokens into text,
--     and Tokenizer/Chat is the two modes and the rendering of a chat.
--   Kernels: src/kernels/matmul.rs. Kernels/Rows decodes a row of a tensor and multiplies it with an
--     input, and Kernels/Threads shares rows out among threads.
--   Tests: the theorems at concrete values.
--
-- A method that changes its object takes the state and returns the new one beside its result. Words
-- are natural numbers with their wrap-around written out; usize is 64 bits wide. An i32 and an f32
-- are their bit patterns, and a `String` is its UTF-8 bytes. A sum of u64 that would overflow counts
-- as a panic in `align_up`. The directory of the cache is a list of files by name, and a hash map is
-- an association list, whose order stands for the map's order.
--
-- Loops are structural recursion over lists or counts. The padding of SHA-1 runs on fuel of 64
-- rounds, which is enough since it looks for the next length that leaves 56 modulo 64; `skip_value`
-- counts down the nine levels of nesting that the source allows. Byte-pair merging runs on as much
-- fuel as there are symbols, which is enough since each round joins two of them, and the cutting of a
-- text on as much as there are characters, since each piece takes one at least. The loop over the
-- arguments of a tool call runs on as much fuel as the input has bytes, since each round goes past
-- one of them at least.
--
-- Reading and printing JSON values is serde_json and a parameter, as are the tables of Unicode for
-- lower case and for letters and digits. The clock is read where the source reads it, as an argument.
-- The arithmetic of f32 and the number of threads that the machine has are arguments as well. A
-- fraction of ten bits that is not zero is normalized in ten shifts at most. The threads of a product
-- share no memory, and their results are put together in the order in which they were started.
-- The decode step of `Engine` is that of the CPU backend: the graph of the Metal backend, which an
-- engine keeps from step to step, is not represented. What is proved of an engine's answers is for
-- tokens that the engine knows, as a parameter says: the kernels refuse others, and a session may be
-- fed them all the same. Memory that is asked for is granted, also in `parse_tool_map`, which asks for
-- as much as a count in the file says. A write of a file that fails may leave anything in its place.
-- The locks of the server are taken one after the other and none of them is poisoned.
--
-- Not modelled: the numeric kernels other than these rows, and the GPU (one decode step is a field
-- of `Engine`), what arithmetic on floats computes, sockets and tracing, the search for a default
-- model path, and the command lines.
pub mod Base
pub mod Error
pub mod Bytes
pub mod Utf8
pub mod Types
pub mod Text
pub mod Maps
pub mod Gguf
pub mod Weights
pub mod Tokenizer
pub mod Sha1
pub mod Protocol
pub mod Kernels
pub mod Kv
pub mod Continuation
pub mod Engine
pub mod Session
pub mod Server
pub mod Tests
