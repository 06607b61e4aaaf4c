-- ===== src/Plan/Examples.antt =====
-- The plan of two segments in the wrong order, for light-rocr/loader/load_plan_reader.cpp.
use light_rocm_runtime.Prelude.{◌≡◌, refl, inr, List, [], ◌∷◌, map, arith}
use light_rocm_runtime.Prelude.Sorting.{sort}
use light_rocm_runtime.Word.{checked_add}
use light_rocm_runtime.Loader.{LoadSegment, done}
use light_rocm_runtime.Loader.Elf.{ParsedLoadSegment}
use light_rocm_runtime.Loader.Elf.Segments.{IsLoadable}
use light_rocm_runtime.Loader.Elf.Safety.{IsMappable}
use light_rocm_runtime.Plan.{LoadPlan, plan_segments}
use light_rocm_runtime.Plan.Accepted.{IsExecutable, plan_segments-IsExecutable}

abbrev text : LoadSegment
text = record {
  file_offset = 0;
  file_size = 176;
  virtual_address = 0;
  memory_size = 176;
  alignment = 4096;
  flags = 5;
}

abbrev data_segment : LoadSegment
data_segment = record {
  file_offset = 176;
  file_size = 8;
  virtual_address = 0x10b0;
  memory_size = 32;
  alignment = 4096;
  flags = 6;
}

abbrev segments : List ParsedLoadSegment
segments =
    record { segment = data_segment; program_header_offset = 64 }
    ∷ record { segment = text; program_header_offset = 120 }
    ∷ []

plans :
    plan_segments (map (λ p. p.segment) segments)
    ≡ done (record {
      image_virtual_address = 0;
      image_size = 0x10d0;
      alignment = 4096;
      copies =
          record { file_offset = 0; virtual_address = 0; size = 176 }
          ∷ record { file_offset = 176; virtual_address = 0x10b0; size = 8 }
          ∷ [];
      zero_fills = record { virtual_address = 0x10b8; size = 24 } ∷ [];
      protections =
          record { virtual_address = 0; size = 176; flags = 5 }
          ∷ record { virtual_address = 0x10b0; size = 32; flags = 6 }
          ∷ [];
      relocations = [];
    })
unfolding plan_segments sort checked_add
plans = refl

text-IsLoadable : IsLoadable 184 text
text-IsLoadable = record {
  known_flags = omega arith;
  zero_tail = omega arith;
  in_file = omega arith;
  in_memory = omega arith;
  power = inr (12, refl);
  congruent = inr refl;
}

data_segment-IsLoadable : IsLoadable 184 data_segment
data_segment-IsLoadable = record {
  known_flags = omega arith;
  zero_tail = omega arith;
  in_file = omega arith;
  in_memory = omega arith;
  power = inr (12, refl);
  congruent = inr refl;
}

segments-IsMappable : IsMappable 184 segments
segments-IsMappable = record {
  some_segment = omega arith;
  loadable = (data_segment-IsLoadable, (text-IsLoadable, tt));
  disjoint_files = ((inr (inr (inr (omega arith))), tt), (tt, tt));
  disjoint_memory = ((inr (inr (inr (omega arith))), tt), (tt, tt));
}

plan_segments-IsExecutable_example :
    (plan : LoadPlan) × (plan_segments (map (λ p. p.segment) segments) ≡ done plan)
    × IsExecutable 184 plan
plan_segments-IsExecutable_example = plan_segments-IsExecutable 184 segments segments-IsMappable
