-- ===== src/Lib.antt =====
-- A verification library for Priestly, an encrypted messaging protocol over WebSockets with its chat
-- server and client.
--
-- The program's layers and the modules that model them:
--   Crypto.Huffman      crypto/huffman.py: _build_tree, _build_codes, _pack_bits, compress, decompress
--   Crypto.Sha1         crypto/sha1.py: sha1, tag, verify
--   Crypto.HmacSha256   crypto/hmac_sha256.py: sign, sign_bytes, verify
--   Crypto.Hkdf         crypto/hkdf.py: hkdf_expand
--   Crypto.Covenant     crypto/covenant.py: extended_gcd, modinv, mask, unmask and the other functions
--   Protocol.Process    programs that send and receive frames, and the steps of two of them over a connection
--   Protocol.Covenant   protocol/covenant.py: run_client, run_server (server_confirm is run_server from the
--                       client's confirmation on, and so are the others that are named for a frame)
--   Protocol.Packets    protocol/packets.py: the frames, dumps and loads, over pydantic as a parameter
--   Protocol.Session    protocol/session.py: pack, unpack, compute_tag, SessionState (start is __init__,
--                       open_frame is open)
--   Transport.Socket    transport/ws.py: the byte stream, _recv_exact
--   Transport.Frame     transport/ws.py: encode_frame, read_frame
--   Transport.Http      transport/ws.py: _parse_headers, the test for a GET
--   Transport.Opening   transport/ws.py: accept_token, _read_http_headers, server_handshake,
--                       client_handshake
--   Transport.WebSocket transport/ws.py: the class WebSocket (send_frame is _send, parse_close is _parse_close)
--   Chat.Relay          cli/relay.py: add, remove, deliver, broadcast, encode_message, decode_message
--   Chat.Server         cli/server.py: make_handler (admit is handle_session up to the registration) and
--                       _message_loop (round), with the threads as interleaved steps (Step)
--   Chat.Client         cli/chat_client.py: ChatClient (say_hello is hello, send_message is send,
--                       receive_message is receive)
--   Config              config.py: the two passes of JSONX, parse_jsonx, load, load_with_env, password_from_env
--   Python              what the program uses of the standard library: hmac over SHA-256, hexadecimal
--                       texts, base64, compare_digest, UTF-8, int(text, 16), dict; all of it runs
--   Base                numbers, lists, byte strings, dicts, errors as values
--
-- A byte string is a list of numbers, each below 256 where a theorem says IsBytes; a text is the list
-- of its code points. A call that can raise returns a Result; a method that changes its object
-- returns the result beside the new state, also when it raises. Loops are recursions on the rounds
-- left: the merging of the Huffman heap has as many rounds as entries, and the padding of SHA-1 has
-- 64, and theorems show that these are enough; the receiving loop of a WebSocket has one round more than
-- there are bytes on the stream, each of which takes two; the loop over a header block has two rounds
-- more than the bytes it may hold. A receiving loop that ran out of rounds would raise out_of_rounds,
-- which is no exception of Python's. The heap of _build_tree is a list in order; heapq
-- orders its list otherwise inside and pops the same entries, since no two have the same frequency
-- and symbol.
--
-- What is not under this repository is a parameter: pydantic and json (Protocol.Packets, Chat.Relay,
-- Config.Loading), secrets.randbelow, and the bytes of os.urandom; the operating system's part of a
-- socket is its deliveries and its faults. Not modelled: the set-up of sockets, threads and TLS
-- (transport/server.py, transport/client.py), the terminal and the pages of the user interface
-- (cli/client.py, cli/ui_server.py), which are input and output, and the texts of exceptions that are
-- shown to nobody but the caller.
pub mod Base
pub mod Python
pub mod Crypto
pub mod Protocol
pub mod Transport
pub mod Config
pub mod Chat
pub mod Tests
