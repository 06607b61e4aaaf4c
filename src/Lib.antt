-- ===== src/Lib.antt =====
-- A model of the light ROCm runtime: how a GPU code object is read, planned and laid out, how the
-- memory that a kernel needs is sized and filled, and how packets reach a queue.
--
-- The program's parts, in the order in which a launch uses them. light-rocr/loader reads a code
-- object: elf_reader.cpp takes its segments and load_plan_reader.cpp turns them into a plan of copies,
-- zero fills and protections; metadata_reader.cpp reads what it says of its kernels.
-- light-rocr/runtime/executable_image.cpp tests the plan and places it at
-- a GPU address. light-rocr/runtime/topology.cpp picks the GPU, light-rocr/arch/gfx11 sizes the scratch
-- memory of its queue and builds the command that invalidates its caches for new code,
-- light-rocr/runtime/launch.cpp lays out a kernel's arguments, src/light_rocr_kernargs.cpp fills in the
-- hidden ones, src/aql_producer.cpp writes packets into a queue's ring, and light-rocr/runtime/signal.cpp
-- waits for their completion. light-rocr/transport/kfd/vm.cpp acquires a GPU's address space.
--
--   Prelude  Boolean tests, lists over native numbers, masks and joins of bits, sorting.
--   Word     64-bit and 32-bit limits, and the checked operations that several files define alike.
--   Aql, Producer  src/aql_producer.hpp and .cpp. A submission is a function on a machine: the context
--            of the callbacks and the log of stores and doorbells, in program order. The callbacks are
--            a record of functions, AqlQueueProducerOps; Producer/Contract says what they are to do,
--            IsRing, and apart from it, IsSerialized, that no other producer reserves meanwhile, which
--            the interface does not promise. Producer/Slots replays a log on a slot. A callback that
--            may be null is an Option or has a flag beside it.
--   Topology light-rocr/runtime/topology.hpp and .cpp. A text is a list of bytes.
--   Scratch  light-rocr/arch/gfx11/scratch.cpp; the overloads that take an aperture are requirements_in
--            and control_in.
--   CodeCache  light-rocr/arch/gfx11/code_cache.cpp.
--   Loader   light-rocr/loader/elf_reader.cpp. The bytes are a list. A reader is in the type Outcome: a
--            value, an error with its offset, or a fault, which is a read outside the bytes or of a null
--            pointer.
--   Plan     light-rocr/loader/load_plan_reader.cpp: plan_segments is build_load_plan up to its call of
--            append_relocations; Plan/Dynamic reads the dynamic table, Plan/Table the symbols and the
--            relocation tables, and Plan/Build puts them together. The sorts of the source are insertion
--            sorts here.
--   Metadata light-rocr/loader/metadata_reader.cpp: Metadata/Note is find_metadata_note, and
--            Metadata/MessagePack the class MessagePackReader, whose cursor is an argument and a result;
--            Metadata/Kinds has the kinds of arguments, Metadata/Arguments decode_kernel_arguments, whose
--            record is the one that Hidden reads, and Metadata/Document decode_metadata_document.
--   Image    light-rocr/runtime/executable_image.cpp: validate_plan, translate_executable_address
--            and, in Image/Materialize, materialize_executable_image on a block of bytes.
--   Signal   light-rocr/runtime/signal.cpp. What a wait loads and the time it sees are functions of the
--            number of loops before.
--   Kernarg  light-rocr/runtime/launch.cpp. A write outside the destination is a fault.
--   Hidden   src/light_rocr_kernargs.cpp, on the same blocks of bytes as Image/Materialize.
--   Kfd      light-rocr/transport/kfd: Kfd/Vm is vm.cpp, whose session is a state with a list for the map
--            of its devices. The outcomes of system calls are inputs; the retry of interrupted calls is
--            invoke_ioctl, on fuel, and is left out of the open of a render node.
--
-- The Examples modules below them run the definitions on concrete inputs.
--
-- Numbers are natural numbers; where the source's unsigned arithmetic can wrap, the remainder is
-- written out, and where it is tested for overflow first, the test is. A signed field is its bit
-- pattern. Loops are recursion on their list or on the count that is left, so no fuel runs out, but for
-- the wait for a signal, where the loops up to the deadline are enough, the retry of an interrupted
-- call, and the loop over the notes of a segment, whose fuel is the segment's size and enough, since a
-- note has at least twelve bytes. The printing of a number has a bound, ten digits, which is enough for
-- 32 bits.
--
-- Not modelled: texts and names of errors; timing of phases; the memory order of stores beyond the
-- order of the program; the symbols that the kernels of the metadata name; src/
-- beyond the producer and the hidden arguments; the transports, which call the kernel driver or a library outside the repository, beyond vm.cpp;
-- executors, tools and tests.
mod Prelude
pub mod Word
pub mod Aql
pub mod Producer
pub mod Topology
pub mod Scratch
pub mod CodeCache
pub mod Loader
pub mod Plan
pub mod Metadata
pub mod Image
pub mod Signal
pub mod Kernarg
pub mod Hidden
pub mod Kfd
