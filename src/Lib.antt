-- ===== src/Lib.antt =====
-- Verification of CLyman, the service of AO-StreetArt that keeps the objects and properties of 3D
-- scenes in MongoDB, offers them over HTTP, and announces their changes to a service downstream (Ivan)
-- over UDP.
--
-- The parts and how they meet. A request comes to the handler factory
-- (src/controller/include/handler_factory.h), which checks the credentials against the accounts
-- (src/user/include) and chooses a handler (src/controller/include). The handler reads the body with
-- the JSON factory (src/model/factory/json_factory.cpp) into the data model (src/model), calls the
-- database manager (src/db), asks the cluster manager (src/app/include/cluster_manager.h) for the
-- service downstream, hands an event to the event sender, and answers with a list as JSON
-- (src/model/list, src/model/object/json_object.cpp).
--
-- Which file models which part:
--   Prelude, Outcome, Outcome.Io   shared names, the ways a call ends (return, throw, undefined
--                                  behaviour), and calls that change a state; Outcome.Io.Safety is a
--                                  logic for calls that do not end in undefined behaviour
--   Floats, Std, SortedMap         float and double as a parameter; stoi and to_string; std::map
--   Constants                      src/app/include/clyman_utils.h, src/db/include/db_manager_interface.h
--   Model                          src/model/core/include, src/model/object/include, src/model/list/include
--   Json, Factory, Writer          src/app/include/clyman_utils.h, src/model/factory/json_factory.cpp,
--                                  src/model/object/json_object.cpp, src/model/list/json_object_list.cpp;
--                                  Json.Tokens says which calls of the writer make up a JSON value
--   Model.Property, Factory.Property, Writer.Property
--                                  src/model/property, src/model/list/json_property_list.cpp and the
--                                  property side of the factory
--   Db.Interface                   src/db/include/db_manager_interface.h
--   Db.Documents, Db.Transaction   the documents of src/db/obj3_database_manager.cpp
--   Db.Core, Db.Manager, Db.Query  src/db/core_database_manager.cpp, src/db/obj3_database_manager.cpp and
--                                  src/db/include/obj3_database_manager.h: the retries and the methods
--   Db.Read                        bson_to_obj3 and what it calls
--   Db.Property                    src/db/property_database_manager.cpp and its header: documents, the
--                                  transaction, reading and queries
--   Db.Implementation              src/db/include/database_manager.h
--   Controller                     src/controller/include: one module per kind of handler, Handler and
--                                  Caught for what they share, Router for the handler factory, and
--                                  Answers for the call of whichever was chosen
--   Controller.Property            the same for the handlers of properties (property_*.h); Stored puts
--                                  them on top of the database manager
--   Db.Connection                  src/db/core_database_manager.cpp: connection strings, and the options of
--                                  the pool
--   App.Startup                    src/app/include/clyman_application.h: from the configuration to the
--                                  server that listens
--   App.Cluster                    src/app/include/cluster_manager.h and cluster_loader_process.h
--   App.Events                     src/app/include/event_stream_process.h: Ring for the loop and its
--                                  thread pool, Sender for what is done with one event, Datagram for
--                                  the loop's input and src/app/include/event_sender.h
--   App.Text                       split of src/app/include/clyman_utils.h
--   User                           src/user/include/account_manager.h
--   Samples, and the modules Tests concrete values, and every result applied to some
--
-- State and operations carry the names of the code. A manager or a handler is a function of its state
-- that returns how the call ended and the state it leaves, also where it throws. A pointer that may be
-- null is an Option; an index out of range, a null pointer that is followed, and a failed assertion of
-- rapidjson are the outcome `crash`. `int` values are whole numbers without a bound, but for stoi,
-- which keeps to 32 bits, and the conversion to unsigned in the writer.
--
-- Loops over lists are structural. The loop over retries runs on max_retries, which is eleven in the
-- code too, so that it needs no fuel; the digits of a number are written on the number's successor as
-- fuel, and a number has no more digits than that. The event stream runs over the sequence of what
-- happens: messages, each with the pool's answer, and ends of threads, in any order.
--
-- What is not in the repository is a parameter: the floats (a double made of a float is that float
-- again), the MongoDB driver with Consul's choice of a server (Db.Core.Mongo), the loaded profile
-- with what Vault and the file system say (App.Startup), rapidjson's parser (a body comes parsed,
-- or as the text of an error), Poco's HMAC, Base64 and cipher, and what Consul answers.
--
-- Not modelled: the sockets of the event stream and of the publisher, of which the datagrams remain;
-- the threads of the start (src/app/include/clyman_application.h), and what follows when the server
-- stops; the heartbeat (src/controller/include/heartbeat_handler.h), one fixed line; locks;
-- logging, but for the line of src/controller/include/frame_base_handler.h that adds an index to the
-- pointer of its text; the algebra of glm. A search gives its results and how its cursor ends; what the
-- reading of a cursor does to the state of the database is not represented.
pub mod Prelude
pub mod Outcome
pub mod Floats
pub mod SortedMap
pub mod Model
pub mod Constants
pub mod Json
pub mod Factory
pub mod Writer
pub mod Std
pub mod App
pub mod Db
pub mod Controller
pub mod User
pub mod Samples
