-- ===== src/Importer/Csv/Samples.antt =====
-- What _apply_samples does with the samples of a file.
use dse_fmi.Common.{
  ℕ, zero, suc, ◌<◌, ◌≡◌, refl, sym, ap, ◌∙◌, Bool, true, false, if◌then◌else◌, Option, none, some,
  List, [], ◌∷◌, length, Bytes, arith, subst,
}
use dse_fmi.Importer.Csv.{
  CsvDesc, CsvApi, CsvRead, Applied, accept, next_sample, csv_read_line, apply_line, samples_loop,
  apply_samples,
}

-- A timestamp and the line that it stands in.
abbrev pub Sample : Type 0
Sample = ℕ × Bytes

module _ (api : CsvApi) where
  abbrev pub valid_sample : Bytes → List Sample → Option ℕ → List Sample
  valid_sample line others none = others
  valid_sample line others (some ts) = if api.is_valid ts then (ts, line) ∷ others else others

  -- The samples of the lines: those that are not empty and have a valid timestamp.
  abbrev pub upcoming : List Bytes → List Sample
  upcoming [] = []
  upcoming ([] ∷ rest) = upcoming rest
  upcoming ((x ∷ xs) ∷ rest) = valid_sample (x ∷ xs) (upcoming rest) (api.strtod (x ∷ xs))

  -- The sample at hand and the ones to come; after the end of the file there is none at hand.
  abbrev pub pending : CsvDesc → List Sample
  pending c = elim c.timestamp [ none ↦ [] | some ts ↦ (ts, c.line) ∷ upcoming c.file ]

  -- The values after the samples up to the first that is later than the time.
  abbrev pub apply_due : ℕ → List ℕ → List Sample → List ℕ → List ℕ
  apply_due time index [] values = values
  apply_due time index (s ∷ rest) values =
      if api.at_most s.0 time
      then apply_due time index rest (apply_line api index values s.1)
      else values

  abbrev pub later : ℕ → List Sample → List Sample
  later time [] = []
  later time (s ∷ rest) = if api.at_most s.0 time then later time rest else s ∷ rest

  -- What a read leaves of the lines it was given.
  abbrev ReadsNext : CsvDesc → List Sample → ℕ → CsvRead → Type 0
  ReadsNext c samples lines r =
      (pending r.desc ≡ samples)
      × (r.desc.index ≡ c.index)
      × (r.found ≡ true → length r.desc.file < lines)
      × (r.found ≡ false → samples ≡ [])

  next-ReadsNext :
      (c d : CsvDesc) (samples : List Sample) (lines : ℕ) (r : CsvRead)
      → d.index ≡ c.index
      → ReadsNext d samples lines r
      → ReadsNext c samples (suc lines) r
  next-ReadsNext c d samples lines r e (p, i, f, n) = (p, i ∙ e, (λ h. omega (arith, f h)), n)

  accept-ReadsNext :
      (c : CsvDesc) (line : Bytes) (rest : List Bytes) (samples : List Sample) (r : CsvRead)
      (o : Option ℕ)
      → ReadsNext c samples (suc (length rest)) r
      → samples ≡ upcoming rest
      → ReadsNext c
          (valid_sample line (upcoming rest) o)
          (suc (length rest))
          (accept api c line rest r o)
  accept-ReadsNext c line rest samples r none h e =
      subst (λ s. ReadsNext c s (suc (length rest)) r) e h
  accept-ReadsNext c line rest samples r (some ts) h e = by_test (api.is_valid ts)
    where
      by_test :
          (b : Bool)
          → ReadsNext c
              (if b then (ts, line) ∷ upcoming rest else upcoming rest)
              (suc (length rest))
              (if b
                then record {
                  desc = record c { file = rest; line = line; timestamp = some ts };
                  found = true;
                }
                else r)
      by_test true = (refl, refl, (λ t. omega arith), (λ t. absurd (ground (arith, t))))
      by_test false = subst (λ s. ReadsNext c s (suc (length rest)) r) e h

  next_sample-ReadsNext :
      (c : CsvDesc) (lines : List Bytes)
      → c.timestamp ≡ none
      → ReadsNext c (upcoming lines) (length lines) (next_sample api c lines)
  unfolding next_sample
  next_sample-ReadsNext c [] e =
      (at_end c.timestamp e, refl, (λ t. absurd (ground (arith, t))), (λ t. refl))
    where
      at_end :
          (o : Option ℕ)
          → o ≡ none
          → (elim o as (λ _. List Sample) [ none ↦ [] | some ts ↦ (ts, c.line) ∷ [] ]) ≡ []
      at_end none e = refl
      at_end (some ts) e = absurd (ground (arith, e))
  next_sample-ReadsNext c ([] ∷ rest) e =
      next-ReadsNext c (record c { line = [] }) (upcoming rest) (length rest)
        (next_sample api (record c { line = [] }) rest) refl
        (next_sample-ReadsNext (record c { line = [] }) rest e)
  next_sample-ReadsNext c ((x ∷ xs) ∷ rest) e =
      accept-ReadsNext c (x ∷ xs) rest (upcoming rest)
        (next_sample api (record c { line = x ∷ xs }) rest) (api.strtod (x ∷ xs))
        (next-ReadsNext c (record c { line = x ∷ xs }) (upcoming rest) (length rest)
          (next_sample api (record c { line = x ∷ xs }) rest) refl
          (next_sample-ReadsNext (record c { line = x ∷ xs }) rest e))
        refl

  -- The values and the samples to come after the samples that are due.
  abbrev pub AppliesDue : ℕ → List ℕ → List Sample → List ℕ → Applied → Type 0
  AppliesDue time index samples values a =
      (a.values ≡ apply_due time index samples values)
      × (pending a.desc ≡ later time samples)
      × (a.desc.index ≡ index)

  abbrev pending_at : CsvDesc → Option ℕ → List Sample
  pending_at c o = elim o [ none ↦ [] | some ts ↦ (ts, c.line) ∷ upcoming c.file ]

  -- The turn for a sample that is due.
  turn-AppliesDue :
      (time : ℕ) (index : List ℕ) (samples : List Sample) (after : List ℕ) (r : CsvRead)
      (next : Applied) (found : Bool)
      → r.desc.index ≡ index
      → pending r.desc ≡ samples
      → (found ≡ false → samples ≡ [])
      → (found ≡ true → AppliesDue time index samples after next)
      → AppliesDue time index samples after
          (if found then next else record { desc = r.desc; values = after })
  turn-AppliesDue time index samples after r next true i p n h = h refl
  turn-AppliesDue time index samples after r next false i p n h = (
    ap (λ s. apply_due time index s after) (sym (n refl)),
    p ∙ n refl ∙ ap (later time) (sym (n refl)),
    i,
  )

  due-AppliesDue :
      (time : ℕ) (c : CsvDesc) (values : List ℕ) (ts : ℕ) (turn : Applied) (due : Bool)
      → api.at_most ts time ≡ due
      → pending c ≡ (ts, c.line) ∷ upcoming c.file
      → AppliesDue time c.index (upcoming c.file) (apply_line api c.index values c.line) turn
      → AppliesDue time c.index
          ((ts, c.line) ∷ upcoming c.file)
          values
          (if due then turn else record { desc = c; values = values })
  due-AppliesDue time c values ts turn true e p h = rw e h
  due-AppliesDue time c values ts turn false e p h = rw e (refl, p, refl)

  samples_loop-AppliesDue :
      (n time : ℕ) (c : CsvDesc) (values : List ℕ)
      → length c.file < n
      → AppliesDue time c.index (pending c) values (samples_loop api n time c values)
  unfolding samples_loop csv_read_line
  samples_loop-AppliesDue zero time c values h = absurd (omega (arith, h))
  samples_loop-AppliesDue (suc n) time c values h = by_timestamp c.timestamp refl (λ f.
      subst (λ i. AppliesDue time i (upcoming c.file) after (samples_loop api n time r.desc after))
        reads.1
        (subst (λ s. AppliesDue time r.desc.index s after (samples_loop api n time r.desc after))
          reads.0 (samples_loop-AppliesDue n time r.desc after (omega (arith, h, reads.2 f)))))
    where
      r : CsvRead
      r = next_sample api (record c { timestamp = none }) c.file

      reads : ReadsNext (record c { timestamp = none }) (upcoming c.file) (length c.file) r
      reads = next_sample-ReadsNext (record c { timestamp = none }) c.file refl

      after : List ℕ
      after = apply_line api c.index values c.line

      by_timestamp :
          (o : Option ℕ)
          → c.timestamp ≡ o
          → (r.found ≡ true
              → AppliesDue time c.index
                  (upcoming c.file)
                  after
                  (samples_loop api n time r.desc after))
          → AppliesDue time c.index (pending_at c o) values (elim o as (λ _. Applied) [
            | none ↦ record { desc = c; values = values }
            | some ts ↦
                if api.at_most ts time
                then (if r.found
                    then samples_loop api n time r.desc after
                    else record { desc = r.desc; values = after })
                else record { desc = c; values = values }
          ])
      by_timestamp none e k = (refl, ap (pending_at c) e, refl)
      by_timestamp (some ts) e k =
          due-AppliesDue time c values ts
            (if r.found
              then samples_loop api n time r.desc after
              else record { desc = r.desc; values = after })
            (api.at_most ts time) refl (ap (pending_at c) e)
            (turn-AppliesDue time c.index (upcoming c.file) after r
              (samples_loop api n time r.desc after) r.found reads.1 reads.0 reads.3 k)

  -- _apply_samples applies the sample at hand and those of the lines to come, in the order of the file,
  -- up to the first whose timestamp is later than the time: these give the values; the first that is
  -- later and those behind it are still to come; and the index of the columns stays. The lines that
  -- are empty, or whose timestamp does not convert or is negative, are passed over. The loop ends
  -- within one turn for each line and one for the sample at hand.
  pub apply_samples-due :
      (time : ℕ) (c : CsvDesc) (values : List ℕ)
      → AppliesDue time c.index (pending c) values (apply_samples api time c values)
  unfolding apply_samples
  apply_samples-due time c values =
      samples_loop-AppliesDue (suc (length c.file)) time c values (omega arith)

  module _ (t u : ℕ) (monotone : (x : ℕ) → api.at_most x t ≡ true → api.at_most x u ≡ true) where
    apply_due-later :
        (index : List ℕ) (samples : List Sample) (values : List ℕ)
        → apply_due u index (later t samples) (apply_due t index samples values)
          ≡ apply_due u index samples values
    apply_due-later index [] values = refl
    apply_due-later index (s ∷ rest) values =
        by_test (api.at_most s.0 t) refl
          (apply_due-later index rest (apply_line api index values s.1))
      where
        by_test :
            (b : Bool)
            → api.at_most s.0 t ≡ b
            → apply_due u index
                (later t rest)
                (apply_due t index rest (apply_line api index values s.1))
              ≡ apply_due u index rest (apply_line api index values s.1)
            → apply_due u index
                (if b then later t rest else s ∷ rest)
                (if b then apply_due t index rest (apply_line api index values s.1) else values)
              ≡ apply_due u index (s ∷ rest) values
        by_test true e ih = rw (monotone s.0 e) ih
        by_test false e ih = refl

    later-later : (samples : List Sample) → later u (later t samples) ≡ later u samples
    later-later [] = refl
    later-later (s ∷ rest) = by_test (api.at_most s.0 t) refl (later-later rest)
      where
        by_test :
            (b : Bool)
            → api.at_most s.0 t ≡ b
            → later u (later t rest) ≡ later u rest
            → later u (if b then later t rest else s ∷ rest) ≡ later u (s ∷ rest)
        by_test true e ih = rw (monotone s.0 e) ih
        by_test false e ih = refl

    -- When what is at most the first time is at most the second, a call of _apply_samples for the first
    -- and then one for the second leave the values, and the samples to come, that one call for the
    -- second leaves: no sample is lost or applied twice between the steps.
    pub apply_samples-twice :
        (c : CsvDesc) (values : List ℕ)
        → let first = apply_samples api t c values in
          let second = apply_samples api u first.desc first.values in
          let once = apply_samples api u c values in
          (second.values ≡ once.values) × (pending second.desc ≡ pending once.desc)
    apply_samples-twice c values = (
      second.0
          ∙ ap (λ i. apply_due u i (pending first.desc) first.values) due.2
          ∙ ap (λ s. apply_due u c.index s first.values) due.1
          ∙ ap (apply_due u c.index (later t (pending c))) due.0
          ∙ apply_due-later c.index (pending c) values
          ∙ sym once.0,
      second.1 ∙ ap (later u) due.1 ∙ later-later (pending c) ∙ sym once.1,
    )
      where
        first : Applied
        first = apply_samples api t c values

        due : AppliesDue t c.index (pending c) values first
        due = apply_samples-due t c values

        second :
            AppliesDue u first.desc.index
              (pending first.desc)
              first.values
              (apply_samples api u first.desc first.values)
        second = apply_samples-due u first.desc first.values

        once : AppliesDue u c.index (pending c) values (apply_samples api u c values)
        once = apply_samples-due u c values
