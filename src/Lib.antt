-- ===== src/Lib.antt =====
-- The programs of this repository: the key-value store in C under source and include, and the
-- JavaScript under apache-zookeeper-3.5.9-bin.
--
-- Store is the key-value store:
--   Store.Keys         keys as the octets before the end mark, and `strcmp`.
--   Store.SortedList   source/data.c, entry.c and list.c. A node chain is the list of its entries;
--                      an argument says whether malloc gives memory. SortedList.Order has the
--                      invariant, Lookup and Map what list_get finds.
--   Store.Table        source/table.c, an array of lists. An access outside the array is the fault of
--                      an `Outcome`. Table.Rows has the hash, Map, Remove and Entries
--                      the operations.
--   Store.Server       source/table_skel.c: a call of `invoke` is one step on the table, the
--                      statistics and the log of calls of the next server in the chain. Whether such
--                      a call succeeds is an argument, and so is the time. Server.Retry is about
--                      those calls and GivenUp about the case that they all fail, Session and
--                      Refinement about sessions against a map, Elapsed about the statistics, Sent
--                      about the number of calls.
--   Store.Chain        source/bubble_sort.c and the choice of the neighbours in table_server.c, on the
--                      children that ZooKeeper gives. Chain.Sorting and Neighbours are the proofs.
--   Store.Chain.Replication  a request at the first server of a chain, with the calls of the next
--                      server answered by that server, and so on; Chain.Delivery is the proof. A
--                      call never fails on its way there.
--   Store.Chain.Interleaving  puts of several threads at one server, and the order in which they reach
--                      the next one, as a relation of steps; Interleaving.Orders is the proof.
--   Store.Chain.Joining  the request for the predecessor's table by a server that joins, and the
--                      merge; Chain.Merge, Sent and Takeover are the proofs.
--   Store.Client       source/client_stub.c: what is asked for, and what is taken from a reply.
--   Store.Wire         source/serialization.c, message-private.c, and the sending and receiving of
--                      network_server.c; what the system calls give, and the packing of messages, are
--                      arguments. Wire.Keys and Framing are the proofs. Wire.Exchange is one request over
--                      a connection with the reply to it, `network_send_receive` of
--                      source/network_client.c; Wire.Delivered is the proof.
-- The client of the table is the server, and the servers of the chain are those of Store.Server. The
-- count of clients is kept modulo 2 ^ 32 and the time modulo 2 ^ 64; the sizes of lists and tables
-- and the count of operations are not bounded.
--
-- Nearly all of the JavaScript is docs/skin/prototype.js, the library Prototype 1.7.3 that the
-- ZooKeeper distribution ships for its documentation; the rest are the scripts of that
-- documentation. They are modelled as functions on lists, texts, property lists and explicit states.
--
-- Common passes on the names of the libraries and holds the helpers: tests on numbers, lists over
-- the native numbers, and `Outcome`, a call that returns or throws.
--
-- Proto is prototype.js, one module for each of its parts:
--   Proto.Enumerable   the mixin Enumerable. A collection is the list of what its `_each` passes to
--                      the iterator; an iterator returns or throws, `$break` or something else, and
--                      `$break` is the signal `halt` of the loop. Enumerable.Laws, Groups and Extrema are the proofs.
--   Proto.Text         the built-in operations on strings that the file uses, on lists of code
--                      units.
--   Proto.Strings      the methods of strings. A regular expression that a caller gives is an
--                      argument, a function from a text to its first match, which has no index if the
--                      expression has the flag `g`; the fixed ones are
--                      functions by clauses. White space, case and line ends are those of ASCII.
--   Proto.Inspect      inspect and underscore of strings, and $w; Inspect.Quoted is the proof.
--   Proto.Objects      the functions on values: their types, keys, inspect and toJSON. Values are
--                      trees; how a number is written is part of it. Objects.Json is the proof.
--   Proto.Template     class Template with its own pattern; Template.Markers and Evaluation
--                      are the proofs.
--   Proto.Hash         class Hash: the object's own properties in order. What every object inherits
--                      from Object.prototype is an argument, since `get` asks for it. A property
--                      named `__proto__` is not modelled.
--   Proto.Hash.Query   toQueryString, and in Query.Params toQueryParams, on UTF-8 octets.
--   Proto.Arrays       the methods of arrays and `$A`; a hole is `none`. Arrays.Iteration has the
--                      replacements of map, filter, some and every, Arrays.Search lastIndexOf
--                      and concat.
--   Proto.Numbers      toPaddedString and toColorPart on natural numbers.
--   Proto.Ranges       class ObjectRange on numbers, and Number.times.
--   Proto.Executer     class PeriodicalExecuter, with the browser's timers as an argument.
--   Proto.Events       Event.observe and Event.stopObserving: Event.cache as property lists, and a
--                      log of the calls of the browser. Events.Entries, Invariant and Inverse are
--                      the proofs. Event names that an object inherits, and the name `element`,
--                      are not modelled.
--                      Events.Handler is Event.Handler and what fire hands to the browser.
--   Proto.Traversal    the walks over the page, on lists of what a property of nodes gives.
--   Proto.ClassAttribute  hasClassName, addClassName and the others, on the text of className; for
--                      a class name with special characters, what the engine of regular expressions
--                      answers is an argument.
--   Proto.Ajax         Ajax.Responders, and what Ajax.Request does at each ready state: the callbacks
--                      return or throw, and what is called is a log. Ajax.Steps has what each step
--                      reports; Completion and Responders are the proofs.
--   Proto.Ajax.Sending Ajax.Base and how a request is sent: its method, URL, headers and calls.
--   Proto.Ajax.Response Ajax.Response, String.evalJSON and isSameOrigin.
--   Proto.Ajax.Updater  Ajax.Updater and Ajax.PeriodicalUpdater, whose ticks are the timer and the
--                      responses.
--   Proto.Forms        Form.serializeElements into an object, and the serializers it reads by;
--                      Forms.Writing the text form, the serializers for writing and the observers.
--   Proto.Functions    bind, curry, wrap and methodize, with holes among arguments.
--   Proto.Classes      Class.create and addMethods; Classes.Lookup is what a class has under a name.
--   Proto.Storage      Element.Storage, with the IDs that elements get.
--   Proto.ClassNames   Element.ClassNames, on the text of className.
-- Site is the other scripts of the documentation: Site.Menu has SwitchMenu of docs/skin/menu.js and
-- getMenu.js, Site.Fields docs/skin/getBlank.js and the file names of init.js, Site.Apidocs
-- docs/apidocs/zookeeper-server/script.js.
-- The collections of Hash, Arrays and Ranges are the lists that Enumerable works on; Query.Params
-- uses the loops and texts of Strings.
--
-- Fuel: gsub has the length of the source, since a round takes a code unit at least, if the
-- expression has no flag `g`; eachSlice has
-- the length of the array, inGroupsOf the number of a group, a range the distance of its ends, the
-- digits of a number its value, and the chain has a bound of the number of its servers. Each of these is
-- shown to be enough by the theorem on that method. The names of a template's marker have the length of
-- the marker, since a name takes a character of it at least.
--
-- Not modelled: sortBy and the engine's sort, stripTags, isJSON, the way of an event through the page,
-- the elements of the page and the embedded selector engine; `init` of the documentation site; and
-- of the C programs the sockets, threads and locks, the packing of messages, the command line, the
-- ZooKeeper client, and the freeing of memory.
pub mod Common
pub mod Store
pub mod Proto
pub mod Site
