-- ===== src/Lib.antt =====
-- foris_controller
--
-- foris-controller configures a router for its web interface. A message bus hands each message to the
-- message router, which validates it, finds the module and calls its action; the action calls a
-- handler, which changes the configuration, and sends a notification when that went through. There are
-- two handlers for a module: the mock one keeps its settings in memory, the openwrt one calls the
-- backends, which run the program `uci` inside of a transaction under a process-wide lock.
--
-- The files and the code they model:
--   Prelude      shared names, Boolean tests, dictionaries with text keys, str.upper
--   Json         the values of messages
--   Router       foris_controller/message_router.py (process_message) and perform_action of
--                foris_controller/module_base.py
--   Socket       the handlers of foris_controller/buses/unix_socket.py and of
--                foris_controller/client_socket.py, over the pieces in which bytes arrive
--   RwLock       the class RWLock of foris_controller/utils.py, as interleavings of n threads
--   Ipaddress    check_dynamic_ranges and ip_network_address of foris_controller/utils.py, over the
--                IPv4 part of Python's ipaddress; Ipaddress.Printing the texts of addresses and
--                interfaces
--   Exceptions   foris_controller/exceptions.py, and the built-in exceptions that occur
--   Uci          the readers of uci data in foris_controller_backends/uci/__init__.py
--   Uci.Backend  the class UciBackend of the same file
--   Uci.Export   the parser of what `uci export` prints, its method read
--   Networks     update_settings of foris_controller_modules/networks/handlers/mock.py
--   Lan          foris_controller_modules/lan/handlers/mock.py; Lan.Hosts its DHCP clients,
--                Lan.Actions the actions of foris_controller_modules/lan/__init__.py
--   Wan          _cleanup, update_settings and get_settings of
--                foris_controller_modules/wan/handlers/mock.py
--   Dns          foris_controller_modules/dns/handlers/mock.py, and in Dns.Actions the actions of
--                foris_controller_modules/dns/__init__.py
--   Guest        update_settings of foris_controller_modules/guest/handlers/mock.py and its action
--   Wifi         update_settings of foris_controller_modules/wifi/handlers/mock.py
--   Profiles     foris_controller/profiles.py, the workflows of the wizard
--   Backends     what the openwrt backends share
--   Backends.Guest
--                foris_controller_backends/guest/__init__.py, and what it uses of the backend of wifi
--   Backends.Dns the uci part of foris_controller_backends/dns/__init__.py
--   Backends.Lan foris_controller_backends/lan/__init__.py: in Backends.Lan.Hosts and Changes the hosts
--                with a configured address, in Update and Reading the settings, in Leases the list of
--                clients; unwrap_list and parse_to_list of foris_controller/utils.py
--   Backends.Wan WanUci of foris_controller_backends/wan/__init__.py, and the zone of the firewall in
--                foris_controller_backends/networks/__init__.py
--   Backends.Web WebUciCommands of foris_controller_backends/web/__init__.py
--   RouterNotifications
--                the notifications of foris_controller_modules/router_notifications/handlers/mock.py
-- The other files below these state and prove; the modules called Tests run the code on examples.
--
-- State and operations. The class attributes of a mock handler are the fields of one record, and
-- each method is a function from the record to its result and the record after it; a method that
-- raises returns the state it has reached. The router's state is a type of its own, a parameter.
-- UciBackend is a record with the set of changed configs and a trace of what it did: locks taken,
-- command lines run. The lock is a step relation, one step for each operation on an inner lock.
--
-- Parameters. JSON as bytes, the router and the senders behind the sockets, the JSON-schema
-- validator (the package foris-schema), the rendering of values, of tracebacks and of times, whether a
-- text is an IPv6 address, the system's version and model, and the program `uci`, which answers a
-- command line by any function of all that has happened before.
-- The theorems on transactions name what they need of it: that commands succeed, or that the first
-- commit fails.
--
-- The mock handler and the openwrt one answer the same requests. Backends.Lan.Agreement compares them:
-- a configuration holds the settings and the clients of the mock handler's state when its options and
-- its sections say the same.
--
-- A run of calls of a backend's methods that has no branch is a list of calls, which one function
-- runs in order. What `uci` shows of them afterwards is a hypothesis where a theorem needs it.
--
-- Bounds. Most loops go over a list and are structural recursion. The loops of the sockets and of
-- the parser take a number of rounds: a message is read in as many rounds as it has bytes, the
-- handlers' loops have any number of turns, and the parser has one more round than there are lines.
-- Addresses are numbers below 2 ^ 32, and an addition beyond that raises, as in ipaddress; the
-- length of a message has four bytes, the lowest first. The search for a netmask tries the 33
-- prefix lengths. The number of threads of the lock is any n; they are threads of one process, which
-- share the counter.
--
-- Not modelled: logging, the buses of MQTT and ubus, which call packages outside, the loading of
-- modules, the openwrt handlers, the backends other than those above, and the modules other than
-- networks, lan, wan, dns, guest, wifi and router_notifications. Of the backends of lan, wan and web,
-- the IPv6 leases, the counts of interfaces and the connection tests, which come from ubus, from the
-- hardware and from programs in the background, and what follows on a transaction: hooks, the wizard,
-- restarts. A socket's read that blocks for ever is not told from a slow one: what a peer sends is
-- known up to its close. The transactions of the backends are those whose change directory can be
-- cleaned; what the cleaning raises is a parameter of Uci.Backend.transaction. Threads of the lock that a scheduler starves are not excluded: progress means
-- that some thread can take a step.
pub mod Prelude
pub mod Json
pub mod Ipaddress
pub mod Router
pub mod RwLock
pub mod Exceptions
pub mod Uci
pub mod Socket
pub mod Networks
pub mod Lan
pub mod Wan
pub mod Dns
pub mod Guest
pub mod RouterNotifications
pub mod Backends
pub mod Wifi
pub mod Profiles
