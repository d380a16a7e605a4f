-- ===== src/Lib.antt =====
-- Verification of failmail, an SMTP server that keeps the messages it receives, and sends each
-- recipient summaries of them.
--
-- The program. A `Listener` accepts connections. For each one, `handleConnection` reads lines, lets a
-- `Session` parse them (parser.go, on the combinators of parse/parse.go) and advance its state, writes
-- the responses, and puts each complete message on a channel. The other end of it stores the
-- message in a `MessageStore` and answers with an error or none. A `MessageBuffer` takes the new
-- messages from the store, collects them into a batch for each recipient, and asks the sender for a
-- summary of a batch that is due; what was sent is removed from the store.
--
-- The files, and the code they model:
--   Base: what the program uses of Go's strings, slices and maps. A string is the list of its bytes,
--     a map an association list.
--   Regex: the regular expressions of the grammar, matched at the start of a text. Regex/Matches says
--     which texts an expression matches.
--   Parse: parse/parse.go. `Parser` is the data type of its combinators, `parse` its method `Parse`.
--     Parse/Build has the functions that build parsers.
--   Smtp: parser.go, the grammar of the commands.
--   Message: the received messages of messages.go.
--   Session: session.go. Session/Reply is `Response.WriteTo`; `advance` is `Advance`, `read_command`
--     is `ReadCommand`, and so on by name.
--   Connection: `handleConnection` of downstream.go.
--   Listen: `Listen` of downstream.go, as steps of its goroutines, and signals.go.
--   Buffer: `batches` and `MessageBuffer` of messages.go, with the ids of message_stores.go.
--     Buffer/Run is the loop `Run`, Buffer/Stats is `MessageBuffer.Stats`.
--   Summary: `Compact`, `Summarize` and `Stats` of messages.go. Summary/Text is the text of a summary.
--   Store: `MemoryStore` of message_stores.go, over a heap that is a parameter. Store/TimeOrdered has the
--     methods that the heap calls.
--   Maildir: maildir.go over a file system that is a parameter (`FileSystem`, with `IsLawful` for what
--     os and ioutil document).
--   Disk: `DiskStore` of message_stores.go. `none` is an error. Disk/Writer is `MessageWriter.Run` on it.
--   Upstream: upstream.go, `send` for the methods `Send` and `run_sender` for `Sender.Run`.
--   Config: config.go. Config/Make has the writer, the summarizer and the sender.
--   Configure: configure/configure.go; Configure/Args has `ParseArgs` and the flags.
--   Rewriter: addresses.go; `rewrite_all` of a `Server` of Connection is its `rewrite_all`.
--   Reload: `TryReload` of reload.go, up to the start of the new process.
--   Render: the renderers of render.go. Render/Requests is the message that `Flush` makes of a batch.
--   Main: `main` of failmail.go. Main/System has its goroutines: `System` puts the `Listening` of
--     Listen and the `Running` of Buffer/Run side by side, and a `Turn` is a step of one of them.
--     Main/Status is the handler of http.go.
--   Delivery: the way of a message from `handleConnection` through a `DiskStore` into
--     the requests of `Flush`.
--   Tests: concrete runs of these.
--
-- State. A Go pointer to a struct that a method changes is a record that the function takes and returns.
-- The parser's `Any` objects that refer to themselves are numbers of a table (`smtp_heap`). A nil
-- pointer that is dereferenced, and fuel that ran out, are `none`.
--
-- Fuel. `parse` takes fuel for the depth of the calls of `Parse`, since the grammar refers to itself;
-- `smtp_parser` gives it 20 + 3 * the length of the line, since a domain or a dotted string calls itself
-- only behind a byte that it has read, and no more than three calls lie between.
-- `run_config` gives the grammar of the configuration file as much, since what it repeats takes a byte.
-- `loop` takes fuel for the rounds of `handleConnection`, one more than the lines of the client, since
-- each round reads one.
--
-- Outside the model. Parameters stand for what the program calls: `decode` for base64,
-- `read_message` for net/mail, `rewrite_all` for the rewriter of the listener, `answers` for what
-- the channel of messages and the storage do with one, `batch`, `group` and `normalize` for the
-- user's templates and the clean-up of an address by net/mail, `order` for the order in which a Go
-- map is visited, `HeapOps` for container/heap and sort.Search, `fails` for the answers of the
-- sender, `Strconv` for the numbers of options, `FlagSets` for package flag, `Files` for the
-- configuration files, `Regexp` and `Sorting` for package regexp and `sort.Strings` in the
-- rewriter, `Network` for net/smtp, `IsListing` for what os and ioutil document of lists and times,
-- `Library` for encoding/json and net/mail, `Setup` for what opens sockets, loads certificates and
-- compiles expressions, `Formats` for what packages time and fmt print, `Template` for a template
-- of package text/template.
-- Texts are ASCII where the program folds case or matches a character class. Not modelled:
-- sockets, TLS, what is inside a template, starting a process, serving HTTP, logging, and races
-- between goroutines that share memory.
pub mod Base
pub mod Regex
pub mod Parse
pub mod Smtp
pub mod Message
pub mod Session
pub mod Connection
pub mod Listen
pub mod Buffer
pub mod Maildir
pub mod Disk
pub mod Upstream
pub mod Store
pub mod Summary
pub mod Config
pub mod Configure
pub mod Rewriter
pub mod Reload
pub mod Render
pub mod Main
pub mod Tests
pub mod Delivery
