-- ===== src/Lib.antt =====
-- A model of parts of the verifier of eBPF programs: its numbers, its linear expressions, its domains
-- of intervals and of the bytes of the stack, its instructions with the assertions that guard them,
-- the encoder and the decoder of instructions, the control flow graph, and the fixpoint iterator.
--
-- The program decodes a binary to a sequence of instructions (src/ir), turns it into a control flow
-- graph of labelled blocks (src/cfg), attaches to each instruction the assertions that make it safe
-- (src/ir/assertions.cpp), and interprets the graph in abstract domains (src/crab) until a fixpoint,
-- over which it checks the assertions. The abstract values of numbers are intervals
-- (src/crab/interval.hpp) with ends that are numbers of any size or infinities (src/arith); the
-- domains take linear constraints on variables, and the array domain keeps which bytes of the stack may
-- not be numbers (src/crab/bitset_domain.hpp).
--
-- Files and source:
--   Prelude, Prelude/Tests, Prelude/Int, Prelude/Result, Prelude/Lists, Prelude/Fuel: shared names,
--     Boolean tests, integers over the native natural numbers, results with errors, lists, and calls
--     that do not run out of fuel.
--   Arith/CppInt: the interface of boost::multiprecision::cpp_int, a parameter of the definitions that
--     work on bits. Arith/Number: `Number` of src/arith/num_big.hpp; Number/Wrap describes its
--     extensions, and Number/Casts its casts, by residues; Number/Narrow is about the narrowing.
--   Arith/Extended: `ExtendedNumber` of src/arith/num_extended.hpp; Extended/Order, Extended/Sum and
--     Extended/Product are about its comparisons, sums and products.
--   Arith/Linear: src/arith/linear_expression.hpp, with the variables of src/arith/variable.hpp;
--     Linear/Constraint: src/arith/linear_constraint.hpp and the operators of src/arith/dsl_syntax.hpp;
--     Linear/Terms, Linear/Meaning, Linear/Values and Linear/Normal are about them.
--   Arith/SafeInt: `SafeI64` of src/arith/num_safeint.hpp; SafeInt/Exact is about it.
--   Crab/Interval: `Interval` of src/crab/interval.hpp and the product of src/crab/interval.cpp;
--     Interval/Divide and Interval/Bits are the rest of src/crab/interval.cpp. Interval/Members,
--     Interval/Lattice, Interval/Widening, Interval/Narrowing, Interval/Sums, Interval/Products and
--     Interval/Extend, Interval/Ranges, Interval/Shifts,
--     Divide/Errors, Divide/Fuel and Divide/Positive are about these operations, and
--     Interval/Operations collects some of them.
--   Crab/Bitset: `BitsetDomain` of src/crab/bitset_domain.hpp; Bitset/Lattice, Bitset/Bytes,
--     Bitset/Runs, Bitset/Uniformity and Bitset/Ranges are about it.
--   Cfg/Label: src/cfg/label.hpp. Cfg/Order: the sets and maps of labels that the rest uses, with
--     Order/Laws about them. Cfg/Graph: `Cfg` of src/cfg/cfg.hpp, with the changes of edges of
--     `CfgBuilder`; Graph/Edges is about a graph as a relation. Cfg/Wto: the order of components of
--     src/cfg/wto.hpp and src/cfg/wto.cpp.
--   Ir/Syntax: the data types of src/ir/syntax.hpp. Ir/Assertions: `AssertExtractor` of
--     src/ir/assertions.cpp; Assertions/Privilege and Assertions/Accesses are about it.
--   Ir/Isa: what the encoder and the decoder use of src/spec/vm_isa.hpp, and `width_to_opcode` of
--     src/ir/unmarshal.cpp. Ir/Marshal: the encoder of an instruction, and Marshal/Sequence that of a
--     sequence, of src/ir/marshal.cpp; Marshal/Lengths, Marshal/Layout and Marshal/Jumps are about
--     them.
--   Ir/Platform: what the decoder asks of `ebpf_platform_t` of src/platform.hpp and of the prototypes of
--     helpers. Ir/Unmarshal: the decoder of src/ir/unmarshal.cpp, with Unmarshal/Alu (`getAluOp`,
--     `makeAluOp`), Unmarshal/Memory (`makeMemOp`, `makeLddw`), Unmarshal/Calls (`makeCall`),
--     Unmarshal/Jumps (`makeJmp`) and Unmarshal/Sequence (the loop); Unmarshal/Sound, with its parts
--     Registers, Targets and Whole, and Unmarshal/Arguments are about them.
--   Ir/RoundTrip: the encoder followed by the decoder, by kinds of instructions (RoundTrip/Alu, Unary,
--     Memory, Packets, Loads, Jumps, Branches, Calls) and for a sequence (RoundTrip/Reads, WellFormed,
--     First, Labels, Program).
--   Ir/Program: `Program` of src/ir/program.hpp and the operations of `CfgBuilder` of
--     src/ir/cfg_builder.cpp; Program/Edits is about them. Ir/CfgBuilder: the first pass of
--     `instruction_seq_to_cfg` of the same file, and the printing of labels; CfgBuilder/Mirrored is
--     about the graph it makes. CfgBuilder/Inline: `add_cfg_nodes` and the whole conversion;
--     Inline/Kept is about its graph, and Inline/Count, Inline/Rounds, Inline/Depth, Inline/Edges and
--     Inline/Ends are about its fuel. CfgBuilder/Sequence: `Program::from_sequence`;
--     Sequence/Annotated is about the assertions of its nodes.
--   Analyzer: the state of `InterleavedFwdFixpointIterator` of src/fwd_analyzer.cpp with what each node
--     does to it, over the interface `Domain` of an abstract domain; Analyzer/Visits: its two visits
--     and `run`. Analyzer/Semantics says what a domain's values and an execution are; Pairs, Nodes,
--     Flows, Rounds, Loops, Components, Sound and Run are about the states that executions reach,
--     Calls and Ends about the fuel, and Order decides whether an order fits a graph. Analyzer/Counter
--     fills the interface: the interval of one loop counter, with what src/crab/ebpf_transformer.cpp and
--     src/crab/ebpf_checker.cpp do to that variable; Counter/Laws shows that it is a domain.
--   Tests: the theorems at concrete inputs, in Tests/Intervals, Tests/Programs, Tests/Decoder,
--     Tests/Expressions, Tests/Bytes, Tests/Flow and Tests/Analysis. Tests/Digits is a model of CppInt.
--
-- Correspondence:
--   An operator of C++ has a name: `operator|` is `join`, `operator&` is `meet`, `operator<=` is `le`.
--   A method that assigns to its object returns the new one.
--   A call of CRAB_ERROR, an exception, and the value of an empty optional are errors of `Result`; a
--   failed assert is one too. So is the dereference of an empty optional, which C++ leaves undefined.
--   A `Number` is an integer. A machine integer is an integer with its bounds or its wrap written out.
--   `gsl::narrow` is read as its documentation says: the value if the type holds it, else an exception.
--   `InvalidInstruction` is an error with its program counter, which `unmarshal` turns into its second
--   result; its message is left out. A platform is a record of the questions that the decoder asks, and
--   every definition that asks takes it.
--   The `std::map` of an expression is the list of its pairs in the order of the variables, and the
--   `std::bitset` of the stack the function that reads a bit.
--   A `std::set` of labels is the list of its members in their order, and a `std::map` with labels for
--   keys the list of its pairs.
--   The components of a cycle stand in the order in which they are visited, so that the head comes
--   first. The table of containing cycles is not kept: `nesting` looks for the label in the components.
--   What the iterator calls of `EbpfDomain` is the record `Domain`, in which the check of an assertion
--   answers whether it fails, and check and transformation may throw; `operator|=` is the join that is
--   assigned. `EbpfDomain` itself is a product of domains over all variables and is not modelled; its part
--   for one loop counter, as an interval, is. The limits that it meets in the third round are made before
--   any counter is registered, so that they say nothing of one. An error of a node is a mark without its message. The state before a
--   loop's head is assigned by copy in the decreasing sequence, since `TypeToNumDomain` declares no
--   assignment by move.
--   A valid interval (`IsValid`) has ends that are numbers or the two infinities as the constructor of
--   ExtendedNumber normalises them, and is bottom only as [0, -1]; `Holds n i` says that a valid
--   interval i contains n.
--
-- Bounds and fuel: the divisions of intervals call themselves on the negative and on the positive part
-- of the divisor, and then on those of the dividend; they take fuel, and their callers give 3 for the
-- two splits and the call that does not split. A width is a natural number, positive in the theorems
-- as in the source. The loops of the decoder and of the bytes of the stack go over what is left of the
-- slots or of the range, and take no fuel. Each loop of the iterator takes fuel for the rounds of its
-- increasing sequence, as many for all; where the ranks of a domain's values bound the widenings, three
-- rounds more than that bound are enough, six for the interval of a loop counter. The decreasing
-- sequence counts its rounds down from the source's limit of 2000000. The walk over the nodes of a
-- local call takes fuel for as many rounds as the graph has nodes, since each round copies another
-- one; calls in calls take the limit on frames. The digits of a number take its value for fuel, and
-- it has no more digits.
--
-- Not modelled: the construction of the weak topological order and the domains over several variables
-- are left for later; the order is an argument of the iterator. Of the decoder, the messages, the
-- notes and the line information are left out, as none of them changes the instructions. Printing,
-- parsing, the ELF loader, the tables of the platform, the options and the statistics are input and
-- output around the logic.
pub mod Analyzer
pub mod Arith
pub mod Cfg
pub mod Crab
pub mod Ir
pub mod Prelude
pub mod Tests
