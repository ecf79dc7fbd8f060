-- ===== src/Lib.antt =====
-- Verification of the FMI libraries of this repository (C, under dse/).
--
-- Three parts are modelled. The FMI MCL (dse/fmimcl) operates an FMU in a simulation: it reads the
-- signals of the FMU from YAML documents, sorts them and groups them into a table of marshal groups,
-- which describes how a vector of signal values is exchanged with the FMU. The FMU library (dse/fmu)
-- is what an FMU is built of: it maps the value references of the FMI functions to signals, holds
-- binary signals in buffers that codecs read and write as streams, and mirrors the signals in a
-- table of variables around each step of the model. The FMI gateway (dse/fmigateway) is a model of the
-- FMU library: it connects the FMU to a simulation, whose signals it indexes by value reference. Of
-- the ModelC FMU (dse/fmimodelc), which runs a simulation inside an FMU, the same index is modelled;
-- and of the importer (dse/importer), a program that runs an FMU, the samples from a CSV file and
-- the network signals.
--
-- The files and the code that they model:
--   Common: lists, tests, C strings and hash maps (as association lists), stable sorting by buckets.
--   Fmimcl/Signals: struct FmuSignal (dse/fmimcl/fmimcl.h).
--   Fmimcl/Parser: the signal part of fmimcl_parse with _variable_match_handler,
--     _fmu_signal_generator, the _decode_var_* functions and _sort_by_marshal_group
--     (dse/fmimcl/parser.c); Parser/Order and Parser/Parsed prove what the sort and the parse do.
--   Fmimcl/Engine: fmimcl_allocate_source, _create_mg and fmimcl_generate_marshal_table
--     (dse/fmimcl/engine.c); the loop of the last is table_loop with the locals in Pending.
--     Engine/Table and Engine/Distinct are about the table.
--   Fmimcl/Adapter: fmi2mcl_init, fmi2mcl_step, fmi2mcl_marshal_in and fmi2mcl_marshal_out
--     (dse/fmimcl/adapter/fmi2mcl.c); Adapter/Reads and Adapter/Writes are about the two last.
--   Fmu/Stream: stream_read, stream_write, stream_seek, stream_tell, stream_eof and stream_close of
--     dse/fmu/ncodec.c on one binary variable; Stream/File is what they promise, a file;
--     Stream/Refine relates the two.
--   Fmu/Vref: the keys that the FMI functions make of value references.
--   Fmu/Instance: struct FmuInstanceData (dse/fmu/fmu.h), fmu_log and fmi2SetDebugLogging;
--     Fmu/Flags and Fmu/Log are about them.
--   Fmu/Create: fmi2Instantiate (dse/fmu/fmi2fmu.c).
--   Fmu/Scalar: fmi2GetReal and fmi2SetReal; Fmu/Binary: fmi2GetString, fmi2SetString and
--     fmu_default_signals_reset; Fmu/Step: fmi2DoStep, fmu_register_var and fmu_register_var_table
--     (dse/fmu/fmi2fmu.c, dse/fmu/signal.c). Their child modules have the proofs.
--   Fmu/Variables: the index of the variables of modelDescription.xml (dse/fmu/fmi2variable.c);
--     Fmu/Signals: fmu_default_signals_setup (dse/fmu/signal.c). Their child modules have the proofs.
--   Fmu/Trace: trace_can_log, trace_pdu_log, __log and __get_codec_config; Trace/Configure:
--     trace_configure, ncodec_open, fmu_ncodec_open and fmu_ncodec_close; Trace/Dump: the text of a
--     payload (dse/fmu/ncodec.c). Trace/Filter and Trace/Lines are about what is logged.
--   Fmu/Fmi3: the functions of dse/fmu/fmi3fmu.c; Fmi3/Floats, Receives, Sends and Steps are about
--     them.
--   Index/Vectors: _signal_annotation_list with its helpers; Index/Gateway: the three index functions
--     of dse/fmigateway/index.c, over the loops of Index/Each. Index/Modelc: the three of
--     dse/fmimodelc/runtime.c. Index/Latest and the modules below have the proofs.
--   Gateway/State: the types of dse/fmigateway/fmigateway.h; Gateway/Environment: _set_envar;
--     Gateway/Session: fmigateway_session_start and fmigateway_session_end (dse/fmigateway/session.c)
--     over the functions of dse/fmigateway/session_unix.c; Gateway/Lifecycle: fmu_init, fmu_step and
--     fmu_destroy (dse/fmigateway/fmigateway.c). Their child modules have the proofs.
--   Importer/Csv: csv_index and csv_read_line (dse/importer/csv.c) and _apply_samples
--     (dse/importer/importer.c); Csv/Samples is about the last.
--   Importer/Bus: dse/importer/signal_bus.c, with its codecs at addresses of a heap; Bus/Net is what
--     it promises, a map from names to bytes, and its child modules relate the two.
--   The modules named Tests: runs on concrete inputs.
--
-- State. A function that changes an object takes it and returns it; a pointer to a double is an
-- address, and the memory of an instance maps addresses to doubles. A pointer that may be NULL, and
-- code that may abort, read or write out of bounds, or not end, is an Option. Bytes, characters and
-- the words of doubles are numbers; 32-bit and 64-bit sums have their wrap-around written out where the
-- code can reach it. Of dse_buffer_append, which adds lengths in a uint32_t, nothing is assumed when the
-- sum does not fit.
--
-- Loops over lists are structural recursion. The log of a binary variable and the text of a payload
-- run on fuel, with their counters in 32 bits: the fuel is one more than the length, since a loop that
-- ends takes at most one turn for each byte and one for the last test; without an end the result is
-- none. The decimal text of a value reference runs on 9, since a 32-bit number has at most ten
-- digits. The loop of _apply_samples runs on the number of lines left and one more, since each turn
-- reads a line.
--
-- Parameters. What other libraries provide is a record of functions with the facts that the code
-- relies on: the enumerators of the marshal library and the bytes of its types (MarshalApi,
-- IsEnum), the YAML documents (YamlApi), buffers that grow (BufferApi), the ASCII85 codec and
-- truncation of a codec's variable (TextApi), the hash lists (ListApi), the URI schemes (UriApi),
-- the functions of the FMU that the MCL operates (Fmi2Api), the codec library and the texts of
-- printf (TraceApi), the schema search and the signals of the model library (SchemaApi,
-- GatewayApi), sets of names and the variables of the SimBus (ModelcApi), strtod, atoi and the
-- comparisons of doubles (CsvApi), codecs on streams and sorted vectors (CodecApi, VectorApi), the
-- operating system and the gateway functions of the model library (System). The model of an FMU is
-- a function on the instance (ModelStep). The calls that the gateway makes of the model library and
-- of the shell are recorded in its state, in order.
--
-- Not modelled: the parsers of the gateway and its functions for Windows; the ModelC FMU but for its indexes; the importer but for its samples and network
-- signals; loading an FMU's library by the MCL; memory release; messages to the MCL's own logger;
-- the functions of FMI 3 that only return fmi3OK. Two doubles that overlap in part are not
-- represented, nor is the name of a marshal group, which is made of its kind, direction and type.
pub mod Common
pub mod Fmimcl
pub mod Fmu
pub mod Index
pub mod Gateway
pub mod Importer
