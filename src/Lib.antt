-- ===== src/Lib.antt =====
-- lfs-server-go is a Git LFS server. A client announces an object by its oid (the SHA-256 of its
-- content) and its size, uploads the content, and downloads it. A metadata store knows the
-- objects, the projects and the users; a content store keeps the contents; HTTP handlers join
-- the two; management pages let an administrator look at the metadata and change the users.
--
-- The files, and the code they are about:
-- - Prelude, Prelude/Lists, Prelude/Tests: the names and lemmas that the other files share.
-- - Text, Text/Laws: Go's strings as lists of bytes, and the functions of the package strings
--   that the program calls.
-- - Base64, Hex, FilePath: base64.URLEncoding, hex.EncodeToString and filepath.Join, Clean and
--   Dir as the program uses them.
-- - Errors: errors.go, the authorization error of meta_store_auth.go, isAuthError of server.go.
-- - Types: the records of server.go. An int64 is an integer; the program only compares and
--   passes on sizes.
-- - Config: the settings of config.go, with IsHTTPS, UseTLS and IsPublic; its child Load is
--   init, which sets them. The file is what the library ini.v1 maps over the defaults.
-- - Ldap: LdapSearch, LdapBind, findUserDn, authenticateLdap of meta_store_auth.go. The
--   directory, with the two connections that a login makes, is a parameter. Its children: Laws,
--   and Connection (NewLdapConnection, over url.Parse and the dialer of the library; directory_of
--   makes the two connections by it).
-- - Bcrypt: encryptPass and checkPass of common.go. The library is a parameter, IsHashing what
--   it documents.
-- - Bolt: the database github.com/boltdb/bolt and the encoding encoding/gob, parameters with
--   IsBolt and IsGob for what they document. A database is a state that a transaction takes and
--   returns.
-- - MetaStore: meta_store.go, a function for each method. Its children: Auth (authenticate),
--   Transactions (db.Update), Invariant (the sound databases), Objects and Objects/Put (the map
--   from oids to objects), Users, Sessions (Put, then Get), History (sequences of calls), Listing
--   (Users, Objects), Creation (NewMetaStore, and when Put succeeds).
-- - TransformKey: transformKey of shared_content_store.go.
-- - ContentStore: content_store.go. A disk is a function from paths to contents, with arbitrary
--   faults, and any test for directories; SHA-256 is a parameter. Get gives a reader, which may
--   fail before its end. Its children: Integrity, Uploads and Intact about one Put, and Steps
--   about many at a time: Put a system call at a time, over a disk of names, files and open files.
--   Steps has the children Frame (what a call leaves of other files), Checks, Turns (a Put against
--   the one that runs alone), Apart, Interleaving (uploads of different objects in any order) and
--   Concurrent.
-- - AwsContentStore: aws_content_store.go. The bucket is a parameter, IsS3 what S3 documents of
--   it. Its child Uploads is about Put.
-- - Panics: code that changes a store and may panic, and perror of common.go; its child Laws is
--   about chains of such code.
-- - CassandraMetaStore: cassandra_meta_store.go, a function for each method. Its children:
--   Session (the session of gocql as a parameter, an operation for each statement, and
--   IsCqlSession for what is documented of it), Links (the project of a Put), Put and Users.
--   CassandraService is cassandra_service.go.
-- - MysqlMetaStore: mysql_meta_store.go, a function for each method. Its children: Database
--   (database/sql as a parameter, in the same way, with IsSqlClient) and Put. MysqlService is
--   mysql_service.go.
-- - Server: the requests, responses, interfaces, matchers, unpack, unpackbatch, Represent,
--   writeStatus and requireAuth of server.go. JSON and http.StatusText are parameters. Its
--   children: Matching, about the matchers, and RequestLog, the number of a request in ServeHTTP
--   and logRequest.
-- - Handlers: the handlers of server.go, over any two stores. Guard asks of the metadata store
--   that it refuses wrong authorizations (IsGuarded); Lfs puts the bolt store and the file store
--   in; Cloud puts the S3 store in, Cassandra and Mysql the two stores of these names; Batch is
--   about BatchHandler, with Links about what it makes of an object.
-- - Mgmt: mgmt.go. Its children: Admin (basicAuth, adding a user) and Search (searchOidHandler).
-- - Routes: the routes of NewApp and addMgmt, ServeHTTP, and Serve over a sequence of requests.
--   The router is a parameter. Its children: Unauthorized; Preserved and Contents, what the pages
--   keep of the two stores where the methods of these do; History, sequences of requests to the
--   bolt store and the file store; Download, what a GET sends after one; Cloud, to the bolt store
--   and the S3 store; and Session, the three requests about one object.
-- - UserService: user_service.go and downloader.go. http.Get and the JSON decoder are
--   parameters. Its child is Access.
-- - TrackingListener: tracking_listener.go. The goroutines are a step relation (Step), in any
--   order (Reach). Its children: Shutdown (the count) and Drain (closing the connections).
-- - KvLogger: kvlogger.go. The line is a function; the goroutines that write lines under the
--   mutex are a relation (Reach), in any order, with a writer that may fail before the end of a
--   line. Its child is Lines.
-- - Main: FindMetaStore, findContentStore, the Accept of tcpKeepAliveListener, wrapHttps and
--   main, up to Serve, of main.go. Its children: Listening (the listener) and Ready.
-- - Examples: concrete libraries, databases, disks and requests.
--
-- Loops are structural recursion on the list that the code walks, so no fuel is used, save for
-- the count of bytes in the test for white space of MysqlService, which is the length of the
-- text, and for the digits of a port, which are at most five. A panic is the result `none`. In
-- Routes two requests do not run at the same time: each handler is taken as one step, as bolt
-- runs one writing transaction at a time. The part of the handlers that runs beside others
-- without a lock, Put of content_store.go, is taken apart in ContentStore/Steps, where a turn is
-- a system call or the writing of a byte, and a Put makes as many as its content has bytes and
-- five more. Its theorems are about uploads of different objects; Examples/Turns runs three
-- uploads of one object, of which one is stored with the content of another.
--
-- Not modelled: what the TLS listener does, the signals of main, the calls of the logger in the
-- other files, DumpConfig, the functions that nothing calls (readDir, attributes and
-- cloneRequest), the texts of the HTML templates and of the files that go.rice embeds. A panic
-- of NewLdapConnection is in Ldap/Connection (directory_of) and not in the stores that
-- authenticate by the directory.
pub mod Prelude
pub mod Text
pub mod Base64
pub mod Errors
pub mod Types
pub mod Config
pub mod Ldap
pub mod Bcrypt
pub mod Bolt
pub mod FilePath
pub mod TransformKey
pub mod Hex
pub mod ContentStore
pub mod AwsContentStore
pub mod MetaStore
pub mod Panics
pub mod CassandraMetaStore
pub mod CassandraService
pub mod MysqlMetaStore
pub mod MysqlService
pub mod Server
pub mod Handlers
pub mod Mgmt
pub mod Routes
pub mod UserService
pub mod TrackingListener
pub mod Main
pub mod KvLogger
mod Examples
