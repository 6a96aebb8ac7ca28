-- ===== src/Lib.antt =====
-- xconf loads layered configuration: sources are read one after the other, the layers that they
-- return are merged under a schema, and a runtime keeps the last valid snapshot and tells its
-- subscribers of changes. The library models the Go code of the root package, the shared document
-- reading and the sources below contrib.
--
-- The parts, and the files that model them:
--   Pointer            Path, Path.String and child of xconf.go, and the reading of a pointer in
--                      filter.go
--   Error              the error values of xconf.go and of the other files, with errors.Is
--                      along Unwrap
--   Layer, Layer/Clone Location, Origin, Edit, Layer of xconf.go; cloneLayer of sources.go
--   Value              Go's `any`; Value/Clone is cloneInput of merge.go, Value/Equal is
--                      reflect.DeepEqual
--   Schema             findField, refSchema and objectSchema of merge.go
--   Merge              mergeMap and the provenance of merge.go; Merge/Apply is merger.apply
--   Filter             pathSelection of filter.go; Filter/Paths is AllowPaths and at, Filter/Project
--                      is project and projectEdit, Filter/Read is validate and Read
--   Loader             bind, load, Loader.Load and reportPath of xconf.go; Loader/Entry is New, Load,
--                      LoadAs and Explain
--   Runtime            Subscribe, publish and build of runtime.go; Runtime/Commit is the end of
--                      Reload, Runtime/Same its test for a change, Runtime/Steps the interleavings,
--                      Runtime/Open the start of openLoader, Runtime/Debounce the
--                      loop of run, Runtime/Changes changedPaths
--   Sources            SourceFunc and Optional of sources.go; Sources/Memory is Memory,
--                      Sources/Poll is Poll, Sources/Resilient is Resilient, and its retry loop is in
--                      Sources/Resilient/Backoff
--   Document           internal/document/document.go; below it Document/Reader models
--                      contrib/sources/reader/reader.go, Document/Http
--                      contrib/sources/http/http.go, and Document/Stored the Read of
--                      contrib/sources/file/file.go, contrib/sources/fs/fs.go and
--                      contrib/sources/s3/s3.go, whose constructors and options are in the
--                      modules below it
--   Adapters           the other sources below contrib/sources: Adapters/Kubernetes, Adapters/Directory,
--                      Adapters/Etcd, Adapters/Nats, Adapters/Vault, Adapters/Consul, Adapters/Env,
--                      Adapters/EnvFile, Adapters/Flags and Adapters/Pflag model the files of these
--                      names there, and Adapters/Yaml contrib/decoders/yaml/yaml.go. Adapters/Assign
--                      is the assignment of values at paths that they share, Adapters/Numbers their
--                      int64 and byte budgets, Adapters/Watch what the watching loops promise of
--                      their turns. Adapters/Env/Names is visit, Adapters/Env/Decode decode,
--                      Adapters/Consul/Prefix decodePrefix; the Options below eight of them are
--                      their constructors and options
--   Text               strings and maps; Text/Sort, Text/Suffix and Text/Split are the functions of
--                      Go's library that the sources call
--   Tests              examples at concrete inputs
-- A loader reads its sources in order and hands each layer to the merger; the runtime builds with
-- the loader and commits the result. Filters and the sources of sources.go wrap other sources.
--
-- How the code is modelled:
--   - A string is the list of its bytes. A Go map with string keys is the list of its entries in the
--     order of the keys where the code shows that order, and otherwise a list of entries.
--   - Values are immutable, so what a function changes in place is part of its result. The maps that
--     the merger changes are its own copies, which is why sharing does not show.
--   - A uint64 wraps at 2^64; an int64 is given by its bit pattern.
--   - Recursion is structural, but for four functions with fuel. The decimal digits of a number get the
--     number itself, changedPaths gets the depth of the values, the loop of ignored in
--     Adapters/Consul one more turn than the key has bytes, and the walk of a schema in Adapters/Env/Names
--     takes its fuel as an argument: a schema is on its stack at most once, so one more than the number of
--     schemas is enough. The nesting of layer values is bounded by 128, as in the code, and the levels
--     of the YAML walk are its bound on depth.
--   - A goroutine that watches is a function of one turn of its loop. What its selects and clients give
--     is the input of the turn, and the calls of notify and of Stop are its output.
--   - The commit compares results by the equality of schemapb, which is a parameter with the values of a
--     baked configuration and a bound of their depth. A closed channel keeps what waits in it.
--   - Where the code ranges over a Go map, the members come in the order of the keys, so which of
--     several errors of cloneInput comes first is fixed in the model alone.
--   - The schema is a parameter by its getters, the engine that bakes and validates by its three
--     operations, and decoders, clients and the SHA-256 digest are functions. The error of a context
--     is given for each place that asks for it.
--   - A channel of a subscriber is its one slot. Everything that the code does under the mutex is one
--     step, and a reload is two, since it holds the gate and not the mutex while it builds.
--
-- Not modelled: the parsers of JSON, TOML, YAML and .env files and the clients of the services, which are
-- other modules; the options of the reader, HTTP and pflag sources, the Watch of HTTP, which is Poll,
-- and Watch where it forwards; how long timers take; the texts of errors; and the accessors of a
-- snapshot that only clone.
pub mod Prelude
pub mod Text
pub mod Error
pub mod Pointer
pub mod Value
pub mod Schema
pub mod Layer
pub mod Merge
pub mod Filter
pub mod Loader
pub mod Runtime
pub mod Sources
pub mod Document
pub mod Adapters
pub mod Tests
