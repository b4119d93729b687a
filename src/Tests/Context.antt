-- ===== src/Tests/Context.antt =====
-- A repository in which every file has the same content.
use arcticworks_codepeer.Base.{◌≡◌, ◌≤◌, [], All, length, take}
use arcticworks_codepeer.Base.Text.{Text, codes}
use arcticworks_codepeer.Base.Result.{Result, ok}
use arcticworks_codepeer.Analysis.Context.{
  max_context_files, max_instructions_bytes, instruction_names, build_context, build_instructions,
}
use arcticworks_codepeer.Analysis.Context.Bounds.{
  sections, IsRead, build_instructions-eq-take, build_context_bounds,
}
use arcticworks_codepeer.Tests.Data.{sample_files}

abbrev same_content : Text → Result Text Text
same_content path = ok (codes "be kind")

build_instructions-eq-take_example :
    build_instructions same_content []
    ≡ take max_instructions_bytes (sections same_content (take 3 (instruction_names [])))
build_instructions-eq-take_example = build_instructions-eq-take same_content []

build_context_bounds_example :
    All (IsRead same_content) (build_context same_content sample_files)
    × (length (build_context same_content sample_files) ≤ max_context_files)
build_context_bounds_example = build_context_bounds same_content sample_files
