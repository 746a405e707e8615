-- ===== src/PathStats/Log.antt =====
-- What the log of src/path_stats.rs keeps and what its summary counts.
use link_p2p.Prelude.{
  ℕ, zero, suc, ◌+◌, ◌-◌, ◌≤◌, ◌≡◌, refl, sym, ap, ◌∙◌, Option, none, some, List, [], ◌∷◌, ◌++◌,
  leb, length, length-append, drop, length-drop, min, Bool-cases, Option-cases, arith, inl, inr,
}
use link_p2p.ShortCode.{Text}
use link_p2p.Contacts.{trim, is_nil}
use link_p2p.PathKind.{PathKind}
use link_p2p.PathStats.{
  max_lines, PathSample, PathSummary, SampleJson, last_of, trim_file, count_path, add_sample,
  no_samples, record_sample, add_line, add_lines, load_summary, limited,
}

drop-append_le :
    {A : Type 0} (n : ℕ) (xs ys : List A) → n ≤ length xs → drop n (xs ++ ys) ≡ drop n xs ++ ys
drop-append_le zero xs ys h = refl
drop-append_le (suc n) [] ys h = absurd (omega (arith, h))
drop-append_le (suc n) (x ∷ xs) ys h = drop-append_le n xs ys (omega (arith, h))

trim_file-append :
    (lines : List Text) (line : Text)
    → trim_file max_lines (lines ++ line ∷ []) ≡ last_of 499 lines ++ line ∷ []
unfolding trim_file
trim_file-append lines line =
    let one = length-append lines (line ∷ []) in
    elim (Bool-cases (leb (length (lines ++ line ∷ [])) 500)) [
      | inl t ↦
          let few : length lines - 499 ≡ 0 = ground (arith, t, one) in rw (trim_file, t, few) refl
      | inr t ↦
          let many : length (lines ++ line ∷ []) - 500 ≡ length lines - 499 = omega (arith, one) in
          rw (trim_file, t, many)
            (drop-append_le (length lines - 499) lines (line ∷ []) (omega arith))
    ]

module _ (json : SampleJson) where
  add_lines-append :
      (xs ys : List Text) (s : PathSummary)
      → add_lines json (xs ++ ys) s ≡ add_lines json ys (add_lines json xs s)
  unfolding add_lines
  add_lines-append [] ys s = refl
  add_lines-append (x ∷ xs) ys s = add_lines-append xs ys (add_line json x s)

  add_lines-nil : (s : PathSummary) → add_lines json [] s ≡ s
  unfolding add_lines
  add_lines-nil s = refl

  add_lines-one :
      (sample : PathSample) (s : PathSummary)
      → add_lines json (json.to_line sample ∷ []) s ≡ add_sample sample s
  unfolding add_lines add_line
  add_lines-one sample s =
      rw (add_line, json.unpadded sample, json.nonempty sample, json.reads_back sample) refl

  load_summary-none :
      (lines : List Text) → load_summary json none lines ≡ add_lines json lines no_samples
  unfolding load_summary
  load_summary-none lines =
      let all : length lines - length lines ≡ 0 = omega arith in rw (load_summary, all) refl

  load_summary-some :
      (lines : List Text)
      → load_summary json (some 499) lines ≡ add_lines json (last_of 499 lines) no_samples
  unfolding load_summary
  load_summary-some lines =
      let part : length lines - min 499 (length lines) ≡ length lines - 499 = omega arith in
      rw (load_summary, part) refl

  -- A new sample is the last line of the log, behind the last 499 lines that were there, so the log
  -- has at most 500 lines; and the summary of the new log adds the sample to that of those lines.
  pub record_sample-newest :
      (sample : PathSample) (lines : List Text)
      → (record_sample json sample lines ≡ last_of 499 lines ++ json.to_line sample ∷ [])
        × (length (record_sample json sample lines) ≤ max_lines)
        × (load_summary json none (record_sample json sample lines)
            ≡ add_sample sample (load_summary json (some 499) lines))
  unfolding record_sample
  record_sample-newest sample lines =
      let kept = trim_file-append lines (json.to_line sample) in
      (
        kept,
        rw kept (
            omega (
              arith,
              length-append (last_of 499 lines) (json.to_line sample ∷ []),
              length-drop (length lines - 499) lines,
            )),
        load_summary-none (record_sample json sample lines)
            ∙ ap (λ t. add_lines json t no_samples) kept
            ∙ add_lines-append (last_of 499 lines) (json.to_line sample ∷ []) no_samples
            ∙ add_lines-one sample (add_lines json (last_of 499 lines) no_samples)
            ∙ ap (add_sample sample) (sym (load_summary-some lines)),
      )

-- Every sample is counted once.
pub record IsCounted (s : PathSummary) : Type 0 where
  pub listed : s.total ≡ length s.samples
  pub parted : s.total ≡ s.direct + s.relay + s.relay_candidate + s.unknown

abbrev parts : PathSummary → ℕ
parts s = s.direct + s.relay + s.relay_candidate + s.unknown

count_path-parts :
    (k : PathKind) (s : PathSummary)
    → ((count_path k s).total ≡ s.total)
      × ((count_path k s).samples ≡ s.samples)
      × (parts (count_path k s) ≡ parts s + 1)
count_path-parts PathKind.direct s = (refl, refl, omega arith)
count_path-parts PathKind.relay s = (refl, refl, omega arith)
count_path-parts PathKind.relay_with_direct_candidate s = (refl, refl, omega arith)
count_path-parts PathKind.unknown s = (refl, refl, omega arith)

add_sample-IsCounted :
    (sample : PathSample) (s : PathSummary) → IsCounted s → IsCounted (add_sample sample s)
unfolding add_sample
add_sample-IsCounted sample s h =
    let (total, samples, sum) = count_path-parts sample.path s in
    let one : length ((count_path sample.path s).samples ++ sample ∷ []) ≡ length s.samples + 1 =
      rw samples (length-append s.samples (sample ∷ [])) in
    record {
      listed = omega (arith, total, one, h.listed);
      parted = omega (arith, total, sum, h.parted);
    }

module _ (json : SampleJson) where
  add_line-IsCounted :
      (line : Text) (s : PathSummary) → IsCounted s → IsCounted (add_line json line s)
  unfolding add_line
  add_line-IsCounted line s h = elim (Bool-cases (is_nil (trim line))) [
    | inl t ↦ rw (add_line, t) h
    | inr t ↦ elim (Option-cases (json.from_line (trim line))) [
      | inl e ↦ rw (add_line, t, e) h
      | inr (sample, e) ↦ rw (add_line, t, e) (add_sample-IsCounted sample s h)
    ]
  ]

  add_lines-IsCounted :
      (lines : List Text) (s : PathSummary) → IsCounted s → IsCounted (add_lines json lines s)
  unfolding add_lines
  add_lines-IsCounted [] s h = h
  add_lines-IsCounted (line ∷ lines) s h =
      add_lines-IsCounted lines (add_line json line s) (add_line-IsCounted line s h)

  -- The total of a summary is the number of its samples and the sum of its four counts, whatever the
  -- lines of the log are.
  pub load_summary-IsCounted :
      (limit : Option ℕ) (lines : List Text) → IsCounted (load_summary json limit lines)
  unfolding load_summary
  load_summary-IsCounted limit lines =
      add_lines-IsCounted (last_of (limited json limit lines) lines) no_samples
        (record { listed = refl; parted = refl })
