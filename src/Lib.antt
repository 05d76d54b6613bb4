-- ===== src/Lib.antt =====
-- goreactor is a reactor for TCP servers in Go with a WebSocket plugin. Event loops wait in a
-- poller for sockets and for tasks that other goroutines queue; a connection keeps what it has read
-- and what it has to write in ring buffers, which come from a pool; a protocol cuts the input into
-- messages, and for WebSocket answers the handshake and then decodes frames with virtual reads,
-- which can be taken back.
--
-- Common: slices of Go as lists, with their panics as `none`; tests; bitwise operations.
-- RingBuffer: ringbuffer/ringbuffer.go. Defs has the struct and the operations that change it, one
--   function for each method, Access those that do not. Contents has the bytes a reader sees and
--   the invariant; Storing to Exhausted have the theorems, and Queue the specification, a queue of
--   bytes. Sizes and counts are of type int and stay far below 2 ^ 63, so they are numbers.
-- Pool: ringbuffer/pool.go. sync.Pool is the list of its items and a choice; sort.Sort and the
--   percentile, a floating-point product, are parameters. The loop of `index` has a round for each
--   unit of its argument, which is enough since the argument is halved in each.
-- Websocket: plugins/websocket. Cipher is ws/cipher.go, Frame is ws/frame.go, ws/read.go and
--   ws/write.go, Replies is ws/utils/utils.go with the protocol errors of ws/errors.go, Handler is
--   `OnMessage` of wrap.go, Echo is about what it answers to a ping, Http is ws/utils.go and the
--   parsers of ws/http.go. The loop of `pow` has a round for each unit of the exponent, which is
--   enough since it is halved.
-- Websocket.Handshake: Errors is ws/errors.go, Responses what ws/http.go and ws/nonce.go write,
--   Headers the loop of `Upgrade` of ws/ws.go over the lines of the request with its hooks, and
--   Upgrade the whole method. The hooks see and change a value of any type, which stands for the
--   connection. `ScanTokens`, `Select` and `WriteOptions` of httphead, http.StatusText, and SHA-1
--   with base64 are parameters. A text is the list of its bytes.
-- Websocket.Protocol: `UnPacket` of protocol.go; Defs is its branch for a connection that is
--   upgraded, Upgrading the other one and the whole; Serving and Answering have `handlerProtocol`
--   and `handleRead` of connection.go with the first. log.Fatal is a result of its own. The slice
--   that pbytes.Get returns is a parameter.
-- Connection: connection.go. Defs has `sendInLoop`, `handleWrite` and `handleClose`, Serving
--   `handleRead`, `handlerProtocol` and `HandleEvent`, which use them, for any protocol and
--   callback; Answering has the default protocol of protocol.go in their place, of which Unpacking
--   has `UnPacket`. A record `System` says what the system calls answer: the calls of unix.Write
--   by functions from the bytes to a result, epoll_ctl and unix.Close by whether they succeed;
--   `none` is the end of the process, by a panic or log.Fatal. The bytes the kernel took are part
--   of the state. A connection that is closed keeps its buffers reset, as the pool has them. The
--   loop of `handlerProtocol` may call `UnPacket` once more than there are bytes, which is enough
--   where each message takes a byte or more. Tasks has `Send` and `Close` with what the loop runs
--   for them, Idle the idle timer, with `NewConnection` and `Close`; times are nanoseconds.
-- Reactor: Wakeup is the task queue of eventloop/eventloop.go with the event file of
--   poller/epoll.go, as steps that goroutines interleave; a section that the spin lock guards is
--   one step. Sockets is the map of sockets and `ConnCnt` of eventloop/eventloop.go over the calls
--   of epoll_ctl in poller/epoll.go; epoll_ctl is a parameter with the laws of its manual page.
--   Events is what `Poll` of poller/epoll.go makes of an epoll event and `HandleEvent` of
--   connection.go of that, Polling the loop of `Poll`, round by round. Server is `NewServer`,
--   `Start` and `Stop` of server.go and `HandleEvent` of listener.go, as far as the pollers;
--   Balance is `RoundRobin` of server.go, Options is options.go, Context is centext.go.
-- Examples: the theorems at concrete inputs.
--
-- Not modelled: the system calls, newListener and the timing wheel, which belong to other
-- packages; the accessors of a connection; the task that `Stop` of a loop queues and its
-- `ConnCnt.Swap(0)`; headers of net/http for a response; the spin lock, whose sections are single
-- steps; examples, benchmarks and code that is commented out. Several goroutines that calibrate
-- the pool at once are not modelled either; the code lets one run at a time.
pub mod Common
pub mod RingBuffer
pub mod Pool
pub mod Websocket
pub mod Connection
pub mod Reactor
mod Examples
