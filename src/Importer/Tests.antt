-- ===== src/Importer/Tests.antt =====
-- Runs of the samples.
use dse_fmi.Common.{
  ℕ, ◌==◌, leb, if◌then◌else◌, ◌≡◌, refl, none, some, [], ◌∷◌, Bytes, codes, arith,
}
use dse_fmi.Importer.Csv.{CsvDesc, CsvApi, fields, apply_samples}
use dse_fmi.Importer.Csv.Samples.{AppliesDue, pending, apply_samples-due, apply_samples-twice}

-- A number is the code of its digit, and "x" sets errno.
abbrev value : Bytes → ℕ
value [] = 0
value (c ∷ cs) = c

abbrev api : CsvApi
api = record {
  strtod = λ text. if value text == 120 then none else some (value text);
  atoi = value;
  is_valid = λ ts. leb 48 ts;
  at_most = leb;
}

abbrev desc : CsvDesc
desc = record {
  file = codes "1;5;6" ∷ codes "x" ∷ codes "3;7;8" ∷ [];
  line = codes "0;3;;4";
  timestamp = some 48;
  index = 1 ∷ 0 ∷ [];
}

-- An empty column is passed over.
fields_test : fields (codes "0;3;;4") ≡ codes "3" ∷ codes "4" ∷ []
unfolding fields
fields_test = refl

apply_samples_test : (apply_samples api 49 desc (0 ∷ 0 ∷ [])).values ≡ 54 ∷ 53 ∷ []
unfolding apply_samples
apply_samples_test = refl

apply_samples-due_example :
    AppliesDue api 49 desc.index
      (pending api desc)
      (0 ∷ 0 ∷ [])
      (apply_samples api 49 desc (0 ∷ 0 ∷ []))
apply_samples-due_example = apply_samples-due api 49 desc (0 ∷ 0 ∷ [])

apply_samples-twice_example :
    let first = apply_samples api 49 desc (0 ∷ 0 ∷ []) in
    let second = apply_samples api 51 first.desc first.values in
    let once = apply_samples api 51 desc (0 ∷ 0 ∷ []) in
    (second.values ≡ once.values) × (pending api second.desc ≡ pending api once.desc)
apply_samples-twice_example =
    apply_samples-twice api 49 51 (λ x h. ground (arith, h)) desc (0 ∷ 0 ∷ [])
