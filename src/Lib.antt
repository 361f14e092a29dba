-- ===== src/Lib.antt =====
-- jt400-go, a client for IBM i host servers in Go: what its packages do to the bytes on the wire
-- and to the state of a connection.
--
-- The program. Package as400 frames requests and replies (a 20-byte header), codes their fields
-- as LL/CP parameters, keeps the correlation counter and the deadline of one exchange on a
-- connection, and has the generic logon. Package as400/auth codes texts in EBCDIC and UTF-16, and
-- derives the password substitute that a logon sends. The services stand on as400: rmtcmd
-- (commands and program calls), dtaq (data queues), signon, and database, which codes the values,
-- formats and row blocks of SQL, builds requests and reads replies, keeps the state of a
-- connection with its transactions and statement handles, and runs prepared statements with a
-- cursor over their rows.
--
-- The files.
-- Prelude, Go: the shared names, lists and integers over the native numbers, and what the code
--   uses of Go. A byte slice is a list of numbers, a call's outcome is a Result: a value, an
--   error, a panic, or stuck where a loop ran out of fuel.
-- As400/Error, As400/Params, As400/Datastream, As400/Conn, As400/Dial, As400/Logon:
--   as400/params.go, as400/datastream.go, as400/serverid.go, as400/conn.go, as400/logon.go.
--   As400/Service: what the clients of the services share, a request that is built, sent and
--   answered, and a Connect that closes its connection on an error. An exchange gives the
--   connection behind it, the events on the socket and the result; its environment is a value,
--   with the point at which the watcher of a cancellation moves the deadline, if it does.
-- Auth/Ebcdic, Auth/Text: as400/auth/ebcdic.go and UTF16BE of as400/auth/password.go. Auth/Des:
--   as400/auth/password_des.go. Auth/Password: as400/auth/password.go; its record Crypto has DES,
--   the hashes and strings.ToUpper.
-- Rmtcmd/Rle, Rmtcmd/Wire, Rmtcmd/Messages, Rmtcmd/Errors: rmtcmd/rle.go, rmtcmd/wire.go,
--   rmtcmd/messages.go, rmtcmd/errors.go. Rmtcmd/Client: rmtcmd/client.go, rmtcmd/command.go,
--   rmtcmd/program.go.
-- Dtaq/Wire, Dtaq/Client, Dtaq/Queue, Dtaq/Errors: the files of dtaq of these names. Signon/Wire,
--   Signon/Client, Signon/Errors: the files of signon of these names.
-- Database/Decimal: the packed, zoned and text decimals of database/value.go. Database/Value: the
--   rest of database/value.go; its record Platform has floating-point numbers, times and
--   strings.TrimSpace. Database/Ccsid: database/ccsid.go. Database/Format and Database/Data:
--   database/format.go. Database/Wire: database/wire.go. Database/Conn: database/conn.go; a
--   Session is a Conn with the environments of its exchanges and the log of the requests that it
--   handed on. Database/Setup: the attributes that database/conn.go sets and reads.
--   Database/Connect: its Connect. Database/Errors: database/errors.go. Database/Driver:
--   database/driver.go. Database/Stmt: database/stmt.go, with the exported Exec and Query in
--   Database/Stmt/Direct; a World is a Session with a store of Stmt and Rows objects, where a
--   pointer is the number of its object. Database/Stmt/Reached: the calls of a program on one
--   connection, as a relation on worlds.
-- The modules below these hold the proofs, and the Runs modules hold concrete runs.
--
-- A definition has the name of the Go function in snake case. Words keep their width: a
-- conversion to 16, 32 or 64 bits is written out.
--
-- Fuel. DecodeParams and decompressRLE run on the length of their input: each round takes at
-- least six bytes, or one. The search for a field name in an extended format takes at least six
-- bytes a round. parseMessages runs on its count. The loop of Next runs on two rounds, and that
-- of firstKeyword on one more than the runes of its text. padText runs on the length of its
-- field. The digits of a number run on one more than the number.
--
-- Parameters. decodeServerText (decode_text), strings.ToUpper (to_upper) and time.Date (date) are
-- arguments, on which nothing is assumed. A Network says which addresses a dial reaches, and
-- driver.DefaultParameterConverter is the argument convert. The records Crypto, Platform and
-- Settings gather the others; a theorem on lengths of password substitutes assumes the sizes of
-- DES blocks and of hashes, those on a Connect that of the sums of HMAC, and the one on texts of
-- a column that its character set gives the text back.
--
-- Not modelled: what a socket and TLS do behind a dial (I/O); the registration of the driver with
-- database/sql; the example programs. A mutex is no state, since a session is used by one caller
-- at a time. Go's order of evaluation between a request and the clock is not seen: a clock is an
-- argument.
pub mod Prelude
pub mod Go
pub mod Auth
pub mod As400
pub mod Rmtcmd
pub mod Database
pub mod Dtaq
pub mod Signon
