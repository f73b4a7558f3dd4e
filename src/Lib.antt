-- ===== src/Lib.antt =====
-- A model of oracall, which generates Go and protobuf code that calls Oracle stored procedures, and the
-- theorems about it.
--
-- The program reads the rows of user_arguments (lib/readcsv.go), filters them and groups them by program,
-- and builds for each program a Function with a tree of Arguments (lib/readcsv.go, lib/struct.go). The
-- sources of the packages are scanned for documentation and annotations (source/lex.go, source/parse.go).
-- From the functions it prints code, where names and number types are converted (lib/writestructs.go,
-- lib/types.go, model.go). For object types it reads the dictionary, keeps the types in a JSON document and
-- prints code that binds them (lib/objects). The server that hosts the generated code hides passwords in its logs
-- (orasrv/orasrv.go).
--
-- The modules, and what they model:
-- Prelude: shared names, Boolean tests and list lemmas. Text: the functions of Go's strings package on
-- byte strings; Text.Search says what they find.
-- Source: source/lex.go. Source.Item has the items, Source.Lex the scanner: its record Lexer is lexer, its
-- state functions are lex_text, lex_string, lex_line_comment and lex_block_comment, `iter` is Iter for a
-- consumer that takes every item, and `lex` is Lex. Outcome tells a result from a panic, a send that
-- waits for ever, and fuel that ran out. Below it, Emit is about one emit, Newline about texts that end in
-- a newline, Find about findFirst, Step and Inside about one call of a state function, Total about whole
-- runs, Faults about inputs on which it goes wrong. The fuel is four rounds for each byte and sixteen
-- more; a state function moves on by a byte at least and sends three items at most.
-- Rows: UserArgument, filterArgs and groupArgs of lib/readcsv.go; an iterator is the list that it yields.
-- Build: ParseArgumentsIter of lib/readcsv.go. A heap of nodes holds the arguments while they are shared
-- by pointer, and a level is an int8, kept as its residue of 256. Below it, Heap is about nodes that
-- are added and changed, Trees about trees of arguments in the heap, Place about putting them there row
-- by row, and Programs about whole programs.
-- Argument: lib/struct.go without the children of an argument, NewArgument above all; a panic is `none`.
-- Numbers: ParseDigits and goNumType of lib/types.go, and GoType of model.go, on ℕ.
-- Names: CamelCase, SnakeCase and the like of lib/writestructs.go, lib/struct.go, model.go and
-- lib/objects/type.go, on ASCII.
-- Annotations: parseAnnotation of source/parse.go and ApplyAnnotations of lib/readcsv.go, with Name and
-- RealName of lib/struct.go. A heap holds the functions, to which the map points. RealName has a round for
-- each function that was there before and one more, which is enough unless the replacements go in a
-- circle; there it gives `none`, as the program would not come to an end. The list of the entries of the
-- map stands for the order in which Go visits it, which is any. Below it, Parse is about parseAnnotation,
-- Keeps about what a change of the heap keeps, Applied about the functions that ApplyAnnotations returns,
-- and Total about when it does.
-- Convert: AsInt32, AsInt64 and AsUint64 of custom/goracle.go on integers in two's complement; what Go makes
-- of floating-point values is a parameter. Below it, Exact is about the integers that are kept.
-- Docs: splitByOffset and argDocs.Parse of lib/split_doc.go, on text whose white space is that of ASCII;
-- below it, Parts is about the cutting and Entries about what is read from an item.
-- StripJson: StripJSON of orasrv/orasrv.go.
-- Generate: the code that prints code. GoType is goType of lib/writestructs.go with the type that an argument
-- keeps, on the trees of Build; ProtoType is protoType of lib/proto.go and the text of its options, which Go
-- prints in any order; VarNames is getVarName of lib/plsql.go with its map of names for each function, where
-- one round for each byte of the name and one more are enough; Checks is genChecks and the text of GenChecks
-- of lib/writestructs.go before it is formatted; PlsType is FromOra, GetOra and ToOra of lib/types.go, with
-- the hash that names a variable. Chain has the steps
-- that are made while each gives a result. Printf is Sprintf of a format, Format the same of a list of pieces, and
-- Braces is about texts in which each closing brace has an opening one before it.
-- Calls: prepareCall of lib/plsql.go and the conversions that it calls. Conversions is getConvSimple,
-- getConvSimpleTable, getConvRefCursor and getFromRset, and below it Records is getConvRec and getConvTableRec;
-- each returns the lines that it appends. Parts is what prepareCall collects, and below it Sound is about
-- the declarations that stay when parts are added. Prepare is the loop of prepareCall over the arguments, with
-- a tree for each argument and the map of names passed along; below it, Declared is about the variables that
-- the call passes. What %#v prints for an argument is a parameter. Block is PlsqlBlock, which puts both texts
-- together; below it, Closed is about the braces of its parts, and Whole about a call that was prepared.
-- Messages: SaveProtobuf of a function, saveProtobufDir and protoWriteMessageTyp of lib/proto.go. The map `seen`
-- is the list of its keys, which Generate.Steps passes along, errors and panics included; an error is the one
-- that it wraps. What getDirDoc makes of the documentation is a parameter. Below it, Seen is about the names that
-- are entered, and File is SaveProtobuf of all functions, onto a writer that does not fail; there, Served is about
-- the messages that a service names, for which Names.Cases shows that CamelCase ignores the case.
-- Structs: getStructName, getPlsqlConstName and SaveStruct of lib/writestructs.go before the code is formatted;
-- below it, Closed is about its braces.
-- Query: NewQueryError and QueryError.Error of lib/types.go, where the text of the error and what errors.As finds
-- are given. Below it, Lines is about the line that an error names.
-- Objects: lib/objects/type.go. A pointer to a type is an address of a heap, which is a function, and the nil
-- pointer is `none`; a nil pointer that is followed is a panic. Write is WriteOraToFrom with writeObjectExpr,
-- dataGetter and protoGoName, and WriteProtobufMessageType. Simple and Readable are about the types of values,
-- Underscore about the names of messages. Objects.Store is MarshalJSONTo and UnmarshalJSONFrom of
-- lib/objects/objects.go, between which the JSON document is passed on as it is; its recursion has fuel, and a
-- type needs more of it than its rank, which is the length of the longest way from it along the pointers.
-- Below it, Copy says what a copy is, Added and Ordered are about a type and its pointers, and RoundTrip about
-- the whole.
-- Procedures: lib/objects/procedure.go. The rows are given, each with the error of its scan, and the map of the
-- types is a function. Below it, Groups is about the rows, and Wrapper is WriteProcedureWrapper and the file
-- around it; there, Cache is about the types that are resolved once, and Closed, Statements and Files are about
-- the braces.
--
-- Not modelled: access to the database, files and the network, the parts of the generators that are not named
-- above, code that is generated, and logging. Texts are lists of bytes, and the conversions of case and the white space are those of ASCII.
pub mod Annotations
pub mod Argument
pub mod Build
pub mod Calls
pub mod Convert
pub mod Docs
pub mod Generate
pub mod Messages
pub mod Names
pub mod Numbers
pub mod Objects
pub mod Prelude
pub mod Procedures
pub mod Query
pub mod Rows
pub mod Source
pub mod StripJson
pub mod Structs
pub mod Text
