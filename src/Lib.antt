-- ===== src/Lib.antt =====
-- A model of the core of tpaf, a server for service discovery: clients connect, publish services with
-- properties, and subscribe to services by filters. The server (src/proto/) turns protocol messages into
-- calls of the service discovery domain (src/sd/), which stands on a few containers (src/util/).
--
-- Which file models which part of the repository:
--   Prelude, Prelude/*    numbers, tests, lists, int64_t as integers
--   Clib/Str              C strings as lists of bytes (strcmp, strncmp, strstr, isspace)
--   Clib/Decimal          printing "%" PRId64 and strtoll, saturation included
--   Clib/Ftime            the doubles that are points in time, in ticks of a microsecond
--   Util/Plist            src/util/plist.c: the block of cells, refined to lists (Util/Sequence)
--   Util/Pqueue           src/util/pqueue.c: the circular block, refined to lists
--   Util/Pmap             src/util/pmap.c: the list of entries
--   Util/Sbuf             src/util/sbuf.c
--   Sd/Pvalue, Sd/Props   src/sd/pvalue.c, src/sd/props.c
--   Sd/Generation         src/sd/generation.c
--   Sd/Service            src/sd/service.c: the protocol of a change, begin, set, commit or abort
--   Sd/Filter             src/sd/filter.c: matching; Filter/Print and Filter/Parse: filter_str and
--                         filter_parse; Filter/Meaning: what a filter means
--   Sd/Sub                src/sd/sub.c: matching and the match events
--   Sd/Conn               src/sd/conn.c
--   Sd/State              src/sd/db.c and the structures of client.c and sd.c; the monad of actions
--   Sd/Orphans            src/sd/sd.c: orphan timers and service_changed
--   Sd/Client             src/sd/client.c: connect, reconnect, disconnect, changes of a service
--   Sd/Publish            src/sd/client.c: publish, takeover, unpublish, purge_orphan
--   Sd/Subscribe          src/sd/client.c: subscriptions
--   Sd/Server             src/sd/sd.c: the requests, and what holds of them in its child modules
--   Proto/Json            the JSON library (jansson) as a parameter, with what is assumed of it
--                         (IsLawful); Json/Tree: trees, which meet the assumptions
--   Proto/Names           src/proto/proto_ta.h: the texts and numbers of the protocol
--   Proto/Types           src/proto/proto_ta.c: the transaction types and their fields
--   Proto/Encoding        src/proto/proto_ta.c: get_fields, set_field, properties as JSON
--   Proto/Ta              src/proto/proto_ta.c: a transaction, its request and its responses;
--                         Ta/Reading: what a request says, member by member
--   Proto/World           src/proto/proto_conn.c and src/proto/server.c: the state, and a queue's growth
--   Proto/Notify          src/proto/proto_conn.c: notify_sub_match, and calls of the domain;
--                         Notify/Messages: the messages by their members, and who gets them
--   Proto/Lists           src/proto/server.c: conn_handshake_cb and conn_term_cb
--   Proto/Conn            src/proto/proto_conn.c: handle_req and the handler of each request;
--                         Conn/Listing/Messages: the messages of the listings by their members
--   Proto/Server          src/proto/proto_conn.c: receiving, sending and the end of a connection;
--                         src/proto/server.c: accept_cb and clean_out_cb
--   Proto/Events          the events of all of these as steps, and the states that they lead to
--
-- How the state corresponds: an object that the code reaches by a pointer is found in the database by
-- its id, so a connection holds ids, and a write through the pointer is an update of the database. An
-- action takes the whole state (record Sd) and returns a result with the new state, or `none` where
-- the code fails an assertion, goes through NULL or a bad pointer, or reads outside a string. The calls
-- of match_cb are recorded in the state in their order. The callbacks of a service (service_changed)
-- are called where client.c commits or removes. The protocol layer has the state World, in which the
-- pointer to a connection is its key in `conns`. An operation of the domain is called with an empty
-- record of calls, and notify_sub_match is then carried out for each call that was recorded, in their
-- order: it changes connections alone, which the domain does not read. What the socket library (XCM)
-- returns, and the memory of a new connection, are arguments.
--
-- Bounds: int64_t values are integers with the sign; ids are turned to uint64_t keys with the
-- wrap-around. Points in time are whole ticks; the rounding of doubles is not modelled. Loops are
-- recursion on the list. filter_parse recurses on fuel, twice the length of the text and one more, of
-- which no text uses all: each recursive call has read a character. try_send makes MAX_SEND_BATCH
-- rounds, as in the source.
--
-- Not modelled: memory management (destroy, reference counts of clients; the counts of services
-- and subscriptions are fields but the heap is not), logging, parsing and printing of JSON, the
-- sockets of XCM, libevent (a timer is a deadline in the state, and the event loop calls
-- orphan_timeout_cb and clean_out_cb), setting up and releasing the server, and allocation
-- failure, which ends the program.
pub mod Prelude
pub mod Clib
pub mod Util
pub mod Sd
pub mod Proto
