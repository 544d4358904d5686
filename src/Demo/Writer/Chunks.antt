-- ===== src/Demo/Writer/Chunks.antt =====
-- The transactions of the demo's writes: each operation once, in order, and none of them too large.
use kafka_fdb_streamline.Common.{
  ℕ, zero, suc, ◌+◌, ◌-◌, ◌*◌, ◌/◌, ◌≤◌, ◌<◌, List, [], ◌++◌, length, ltb, if◌then◌else◌, concat,
  ◌≡◌, refl, ap, sym, ◌∙◌, arith, All, append-nil, if_cases,
}
use kafka_fdb_streamline.Serialization.Model.{Bytes}
use kafka_fdb_streamline.Demo.Writer.{Write, commit_chunk, commit_chunks, write_samples}

length-commit_chunk :
    (prefix : Bytes) (index size : ℕ) → length (commit_chunk prefix index size) ≡ size
unfolding commit_chunk
length-commit_chunk prefix index zero = refl
length-commit_chunk prefix index (suc size) = ap suc (length-commit_chunk prefix (suc index) size)

commit_chunk_zero : (prefix : Bytes) (index : ℕ) → commit_chunk prefix index 0 ≡ []
unfolding commit_chunk
commit_chunk_zero prefix index = refl

-- A chunk in two parts.
commit_chunk-append :
    (prefix : Bytes) (index size all : ℕ)
    → size ≤ all
    → commit_chunk prefix index size ++ commit_chunk prefix (index + size) (all - size)
      ≡ commit_chunk prefix index all
unfolding commit_chunk
commit_chunk-append prefix index zero all within = ground arith
commit_chunk-append prefix index (suc size) zero within = absurd (omega arith)
commit_chunk-append prefix index (suc size) (suc all) within =
    ground (arith, commit_chunk-append prefix (suc index) size all)

commit_chunks-concat :
    (prefix : Bytes) (count rounds start : ℕ)
    → count ≤ start + rounds * 500
    → concat (commit_chunks prefix count rounds start) ≡ commit_chunk prefix start (count - start)
unfolding commit_chunks
commit_chunks-concat prefix count zero start within =
    let none_left : count - start ≡ 0 = omega arith in
    rw none_left (sym (commit_chunk_zero prefix start))
commit_chunks-concat prefix count (suc rounds) start within =
    let left = count - start in
    if_cases
      (λ (size : ℕ).
        commit_chunk prefix start size ++ concat (commit_chunks prefix count rounds (start + 500))
        ≡ commit_chunk prefix start left)
      (ltb 500 left) 500 left
      (λ more.
        let after : count - (start + 500) ≡ left - 500 = omega arith in
        rw (commit_chunks-concat prefix count rounds (start + 500) (omega arith))
          (rw after (commit_chunk-append prefix start 500 left (ground arith))))
      (λ last.
        let after : count - (start + 500) ≡ 0 = ground arith in
        rw (commit_chunks-concat prefix count rounds (start + 500) (omega arith))
          (rw after (rw (commit_chunk_zero prefix (start + 500)) (append-nil _))))

pub write_samples-concat :
    (prefix : Bytes) (count : ℕ) → concat (write_samples prefix count) ≡ commit_chunk prefix 0 count
unfolding write_samples
write_samples-concat prefix count =
    let all : count - 0 ≡ count = omega arith in
    commit_chunks-concat prefix count ((count + 499) / 500) 0 (omega arith)
    ∙ ap (commit_chunk prefix 0) all

abbrev pub IsBounded : List Write → Type 0
IsBounded writes = (1 ≤ length writes) × (length writes ≤ 500)

commit_chunks-IsBounded :
    (prefix : Bytes) (count rounds start : ℕ)
    → start + rounds * 500 < count + 500
    → All IsBounded (commit_chunks prefix count rounds start)
unfolding commit_chunks
commit_chunks-IsBounded prefix count zero start within = tt
commit_chunks-IsBounded prefix count (suc rounds) start within = (
  ground (
    arith,
    length-commit_chunk prefix start (if ltb 500 (count - start) then 500 else count - start),
  ),
  commit_chunks-IsBounded prefix count rounds (start + 500) (omega arith),
)

-- Every transaction of `_write_samples` has at least one write, and 500 at most; put together, they are the
-- writes of the indices below the count, each once and in order.
pub write_samples-IsChunked :
    (prefix : Bytes) (count : ℕ)
    → All IsBounded (write_samples prefix count)
      × (concat (write_samples prefix count) ≡ commit_chunk prefix 0 count)
unfolding write_samples
write_samples-IsChunked prefix count = (
  commit_chunks-IsBounded prefix count ((count + 499) / 500) 0 (omega arith),
  write_samples-concat prefix count,
)
