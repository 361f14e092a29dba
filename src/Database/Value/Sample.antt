-- ===== src/Database/Value/Sample.antt =====
-- A platform for runs.
use jt400_go.Prelude.{ℕ, false, none, [], ◌∷◌}
use jt400_go.Prelude.Int.{pos}
use jt400_go.Database.Value.{Platform}

-- Floats and times that are plain numbers; no text is one of them.
abbrev pub platform : Platform
platform = record {
  Float = ℕ;
  Time = ℕ;
  Zone = ℕ;
  format_float = λ x. x ∷ [];
  parse_float = λ s. none;
  float_of_int = λ n. 0;
  int_of_float = λ x. pos x;
  is_whole = λ x. false;
  below_min_int64 = λ x. false;
  reaches_max_int64 = λ x. false;
  is_special = λ x. false;
  float32_bits = λ x. x;
  float64_bits = λ x. x;
  float32_from_bits = λ n. n;
  float64_from_bits = λ n. n;
  format_time = λ layout x zone. layout;
  parse_time = λ layout s zone. none;
  trim_space = λ s. s;
}
