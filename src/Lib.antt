-- ===== src/Lib.antt =====
-- A verification library for jml, a small scripting language written in C.
--
-- A source text goes through the lexer (src/jml_lexer.c), whose tokens the compiler asks for one at a time;
-- the compiler (src/jml_compiler.c) writes a bytecode (src/jml_bytecode.c) with its constants, which the
-- virtual machine (src/jml_vm.c) runs, and which src/jml_serialization.c turns into bytes and back. Names,
-- fields and interned strings live in the hash map of src/jml_value.c.
--
-- Files:
--   Base: lists by native numbers, tests, C strings and the wrap-around of `uint32_t`.
--   Util: the character classes of include/jml/jml_util.h, and jml_strtok of src/jml_util.c in Util/Strings.
--   Lexer: src/jml_lexer.c. Lexer/State has the struct, its pointer moves and jml_lexer_skip_char; a pointer
--   into the source is the suffix of the NUL-terminated text that it points at. Lexer/Identifier has
--   jml_keyword_match and jml_identifier_check, Lexer/Literal the strings and numbers, Lexer/Scan
--   jml_lexer_tokenize.
--   Value: the values of include/jml/jml_value.h by their kind; a number is the bit pattern of its double.
--   HashMap: the map of src/jml_value.c. HashMap/Table has the operations but for jml_hashmap_find
--   (HashMap/Content) and jml_hashmap_iterator (HashMap/Iterator); HashMap/Lookup is the abstract map; an
--   object's address stands for a string, and its hash, its characters and its mark are a parameter. A
--   capacity of C is the number of slots less one. HashMap/Laws has the invariant.
--   Serialization: src/jml_serialization.c. Serialization/Memory has the growing buffer and the macro
--   REALLOC of include/jml/jml_gc.h, with the pointer that dangles once the buffer has moved; whether
--   realloc moves a block is a parameter. Serialization/Encode and Serialization/Decode have the two
--   directions, Serialization/File the functions on files, by the bytes of the file.
--   Bytecode: src/jml_bytecode.c and include/jml/jml_bytecode.h, and the value array of src/jml_value.c.
--   Gc: src/jml_gc.c. Gc/Heap has the objects of include/jml/jml_type.h by the fields that the collector
--   follows; an address is the index of an object in the heap. Gc/Mark and Gc/Collect have the operations,
--   and Gc/Reached what it is to be reached from the roots.
--   Utf8: src/jml_string.c. Utf8/Codec has the four functions; a pointer is a suffix of the text.
--   Core: src/jml_core.c. Core/Format has jml_core_format_internal, over jml_strtok; Core/Braces says what a
--   format means.
--   Object: the strings and arrays of src/jml_type.c, with jml_string_concatenate and jml_array_concatenate
--   of src/jml_vm.c. Object/Array has the arrays; Object/Intern has the hash, jml_obj_string_allocate,
--   jml_obj_string_copy and jml_obj_string_take over the table `vm->strings`, which is a map of HashMap; a
--   new object has the next address. The hash reads bytes as signed characters.
--   Vm: src/jml_vm.c, and jml_obj_coroutine_grow of src/jml_type.c. Vm/Coroutine has the coroutine, whose
--   pointers into the stack are addresses in cells, and the stack operations; where the allocator puts a
--   stack that grows is an argument. `vm->running` is NULL after an error, so that code which goes on
--   through it has an end of its own. Vm/Upvalues has the capture and closing of upvalues, Vm/Call
--   jml_vm_call, Vm/Run the cases of the switch of jml_vm_run for numbers, jumps, locals, upvalues and
--   return, Vm/Dispatch the table of the computed gotos.
--   Compiler: src/jml_compiler.c. Compiler/Emit has the emission of bytes, operands, constants, jumps and
--   loops, Compiler/Scope the scopes and locals, Compiler/Upvalue the upvalues, Compiler/Logic what jml_and
--   and jml_if_statement emit around what they parse, Compiler/Loop jml_while_statement, break and skip.
--   Compilers that enclose one another are a list.
--
-- How the parts work together: Compiler/Flow, Compiler/Whiles and Compiler/Branches run what the compiler
-- emits by the steps of Vm/Run; Object interns in the map of HashMap; Compiler/Emit writes to the bytecode
-- of Bytecode/Array; the names of Compiler/Scope are compared as the lexer compares keywords.
--
-- Bounds and fuel: the loops of the lexer are structural on the rest of the source. A probe of the map has
-- as many steps as the table has slots, and the map's theorems show that it ends within them. REALLOC has
-- one step for every byte that is missing, which is enough from a size of two on; from a smaller size the C
-- loop does not end. The disassembler has one step for a byte of code. The loop of jml_string_decode has
-- eight, one more than it can shift a byte. Tracing has a step for every object, since each is put on the
-- gray stack once. Counts of type `uint32_t` wrap where the C code adds to them; the theorems name the bound
-- where they need one. `int` counts are not taken to overflow. The virtual machine has STACK_MAX = 32768
-- cells and FRAMES_MAX = 128 frames, a function LOCAL_MAX = 256 locals and upvalues. Doubles are a
-- parameter: their bit patterns are numbers, and their operations functions of those. The loops over arrays,
-- over the tokens of a format and over the code of a loop have fuel for one step more than values or bytes.
-- One step of the virtual machine is one instruction.
--
-- Not modelled: the parser of expressions and statements, classes and the end of a function in the compiler;
-- methods, globals, containers, exceptions and imports in the virtual machine; the objects besides strings
-- and arrays; the core library but for its formatting; modules and the libraries under std and ext, which
-- bind system calls and other libraries; files that fail to open, or are read or written in part; printed
-- text, but for the numbers that the disassembler prints. The deserialisers' results after a failure are not
-- kept. A collection is not run inside the operations of the map, the objects or the virtual machine:
-- allocation is taken to succeed and to leave them alone.
pub mod Base
pub mod Util
pub mod Lexer
pub mod Value
pub mod Object
pub mod Vm
pub mod Compiler
pub mod Core
pub mod HashMap
pub mod Serialization
pub mod Bytecode
pub mod Utf8
pub mod Gc
