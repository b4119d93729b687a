-- ===== src/Tests/Chunks.antt =====
-- `ChunkFiles` on three files, one of them over the limit.
use arcticworks_codepeer.Base.{◌≡◌, All}
use mathlib.Core.List.{Perm}
use arcticworks_codepeer.Base.Sort.{sort_stable}
use arcticworks_codepeer.Analysis.Chunk.{chunk_files, more_additions}
use arcticworks_codepeer.Analysis.Chunk.Partition.{
  all_files, IsReviewable, chunk_files-partition, chunk_files-IsReviewable,
}
use arcticworks_codepeer.Tests.Data.{sample_files, sample_diff}

chunk_files-partition_example :
    (all_files (chunk_files sample_files sample_diff) ≡ sort_stable more_additions sample_files)
    × Perm (all_files (chunk_files sample_files sample_diff)) sample_files
chunk_files-partition_example = chunk_files-partition sample_files sample_diff

chunk_files-IsReviewable_example :
    All (IsReviewable sample_diff) (chunk_files sample_files sample_diff)
chunk_files-IsReviewable_example = chunk_files-IsReviewable sample_files sample_diff
