-- ===== src/Lib.antt =====
-- Fuzzball's libasmir: from machine code to the Vine intermediate language.
--
-- libasmir reads machine code, has the VEX library translate it to VEX expressions and statements,
-- and turns these into Vine expressions and statements, which the execution engine runs. Vine
-- expressions and statements (libasmir/src/ir/exp.cpp and stmt.cpp) are trees that the translator
-- (libasmir/src/vex/irtoir.cpp) builds with the shorthand functions of exp.cpp. A translation
-- appends to a vector of statements, where it may define new temporaries. The constant simplifier
-- (libasmir/src/ir/const_simplify_exp.cpp) rewrites expressions.
--
-- Ir.Types has the enumerations and classes of libasmir/src/include/exp.h, Ir.Build the shorthand
-- functions, Ir.Names and Ir.Print the printed forms. Ir.Eval gives an expression its meaning, a
-- word of some width or none, as the engine's concrete domain (execution/concrete_domain.ml)
-- computes it, and Ir.Words says what it is for an expression to stand for a word. Stmt has the
-- statements and the translator's output; Stmt.Emit is `mk_temp` and `mk_temp_def` as functions
-- from an output to the next; Stmt.Exec runs straight-line statements and says what is known after
-- them. Vex.Assemble puts words together and splits them, Vex.Lanes works on the lanes of a word,
-- Vex.Interleave mixes the lanes of two words, Vex.Multiply and Vex.Wide multiply and divide,
-- Vex.Signed negates and multiplies with signs, Vex.Clz counts leading zeros. Vex.Memory is the
-- arena that the copies of VEX's structures live in (libasmir/src/vex/vexmem.cpp): its static
-- variables are a record, the allocator of the C library is a parameter with the laws that its
-- callers rely on, and Vex.Memory.Reach has its runs as a relation. I386.Flags has the functions
-- of libasmir/src/vex/irtoir-i386.cpp that set the status flags, in Arithmetic, Step, Shift and
-- Multiply; its other modules run the statements and compute the flags. I386.Conditions has the
-- calls of VEX's helpers that read the flags, and I386.Registers the translation of reads (Get)
-- and writes (Put, Dispatch) of registers, where the offsets into VEX's guest state are a
-- parameter; Bytes, File, Refine and Simulate set the vector registers against a memory of 128
-- bytes. Ir.Typing has the types that the translator reads off an expression. I386.Thunk finds the
-- assignments of VEX's flags thunk (Index), deletes its reads (Reads, with Names for what a name
-- contains) and puts statements that set the flags after its assignments (Modify); Vex.Ite emits
-- choices and finds them. X64.Flags has five cases of `x64_modify_flags`
-- (libasmir/src/vex/irtoir-x64.cpp), of an addition, of a subtraction, of an increment and a
-- decrement (Step) and of a logical operation, and the assignments at its end. The vector of
-- statements that a function for flags returns is an output that starts empty. A failed assertion,
-- a panic and undefined behaviour are a missing result (Stmt.Fallible). Simplify has the rules of
-- the simplifier, in the order in which `visitBinOp` tries them. Prelude has the shared helpers,
-- Tests the runs at concrete inputs. The functions keep their names in the source; where the
-- source overloads a name, a suffix tells the forms apart.
--
-- Every function recurses on its argument, so there is no fuel. The index of the current block of
-- the arena is missing where the source has -1. Words are native numbers below 2^width, and a
-- constant counts modulo 2^width. The number of the next temporary is a native number, where the
-- source's static int overflows after 2^31 temporaries. A tree is a value: the copies that the
-- source makes are equal trees, and destruction has no counterpart.
--
-- Not modelled: the dispatch of VEX operations, statements and exits in irtoir.cpp, which stand on
-- types of the VEX library; the indexed registers of i386, its remaining helper calls and the
-- table that selects the function to set the flags (irtoir-i386.cpp); the registers of x64 and its
-- flags but those of additions, subtractions, increments, decrements and logical operations
-- (irtoir-x64.cpp), and ARM (irtoir-arm.cpp); the constructors and copies of VEX's structures
-- (vexmem.cpp); the loader, which calls the BFD library (asm_program.cpp, objdump.cpp); the
-- recursion of the simplifier over a whole tree; the execution engine, which is in OCaml; floating
-- point.
pub mod Prelude
pub mod I386
pub mod Ir
pub mod Simplify
pub mod Stmt
pub mod Tests
pub mod Vex
pub mod X64
