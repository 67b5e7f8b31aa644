-- ===== src/Decoding/Tdt/Config.antt =====
-- Which configurations `TdtDecoderConfig` accepts.
use jpapt_v2_2_inspection.Base.{
  ℕ, ◌<◌, ◌≡◌, refl, ◌≢◌, ◌↔◌, false, List, [], ◌∷◌, map, ok, ok-injective, ap, arith, any,
  raise_if-eq-ok,
}
use jpapt_v2_2_inspection.Base.Int.{ℤ, pos, negsuc, is_negative, to_ℕ, ltb_ℤ}
use jpapt_v2_2_inspection.Decoding.Tdt.{
  TdtDecoderConfig, post_init, is_nil, empty_durations, negative_duration, max_symbols_too_small,
}

-- What an accepted configuration guarantees to the decoder.
pub record IsValid (c : TdtDecoderConfig) : Type 0 where
  pub some_duration : c.durations ≢ []
  pub some_room : 0 < c.max_symbols_per_step

-- The arguments that `c` stands for.
pub record Holds (blank_id bos_id : ℤ) (durations : List ℤ) (max_symbols : ℤ) (c : TdtDecoderConfig)
    : Type 0 where
  pub valid : IsValid c
  pub blank : blank_id ≡ c.blank_id
  pub bos : bos_id ≡ c.bos_id
  pub values : durations ≡ map pos c.durations
  pub bound : max_symbols ≡ pos c.max_symbols_per_step

map-pos-to_ℕ : (ds : List ℤ) → any is_negative ds ≡ false → ds ≡ map pos (map to_ℕ ds)
map-pos-to_ℕ [] h = refl
map-pos-to_ℕ (pos n ∷ ds) h = ap (λ (l : List ℤ). pos n ∷ l) (map-pos-to_ℕ ds h)
map-pos-to_ℕ (negsuc n ∷ ds) h = cc

map-to_ℕ-pos : (ds : List ℕ) → map to_ℕ (map pos ds) ≡ ds
map-to_ℕ-pos [] = refl
map-to_ℕ-pos (d ∷ ds) = ap (λ (l : List ℕ). d ∷ l) (map-to_ℕ-pos ds)

no_negative : (ds : List ℕ) → any is_negative (map pos ds) ≡ false
no_negative [] = refl
no_negative (d ∷ ds) = no_negative ds

positive : (m : ℤ) → ltb_ℤ m 1 ≡ false → (0 < to_ℕ m) × (m ≡ pos (to_ℕ m))
positive (pos n) h = (ground arith, refl)
positive (negsuc n) h = cc

not_nil : (ds : List ℤ) → is_nil ds ≡ false → map to_ℕ ds ≢ []
unfolding is_nil
not_nil [] h = cc
not_nil (d ∷ ds) h = λ e. cc

sound :
    (blank_id bos_id : ℤ) (durations : List ℤ) (max_symbols : ℤ) (c : TdtDecoderConfig)
    → post_init blank_id bos_id durations max_symbols ≡ ok c
    → Holds blank_id bos_id durations max_symbols c
unfolding post_init
sound b s ds m c h =
    let (some_ds, h₁) = raise_if-eq-ok (is_nil ds) empty_durations _ h in
    let (no_neg, h₂) = raise_if-eq-ok (any is_negative ds) negative_duration _ h₁ in
    let (room, h₃) = raise_if-eq-ok (ltb_ℤ m 1) max_symbols_too_small _ h₂ in
    rw (← ok-injective h₃) (record {
      valid = record { some_duration = not_nil ds some_ds; some_room = (positive m room).0 };
      blank = refl;
      bos = refl;
      values = map-pos-to_ℕ ds no_neg;
      bound = (positive m room).1;
    })

complete :
    (ds : List ℕ) (m : ℕ) (b s : ℤ)
    → ds ≢ []
    → 0 < m
    → post_init b s (map pos ds) (pos m)
      ≡ ok (record { blank_id = b; bos_id = s; durations = ds; max_symbols_per_step = m })
unfolding post_init
complete [] m b s n h = absurd (n refl)
complete (d ∷ ds) m b s n h = rw (no_negative ds, map-to_ℕ-pos ds) (ground arith)

-- `post_init` accepts exactly the arguments with a duration, none negative, and a positive bound;
-- the configuration then holds these very values.
pub post_init_iff :
    (blank_id bos_id : ℤ) (durations : List ℤ) (max_symbols : ℤ) (c : TdtDecoderConfig)
    → (post_init blank_id bos_id durations max_symbols ≡ ok c)
      ↔ Holds blank_id bos_id durations max_symbols c
post_init_iff b s ds m c = (
  sound b s ds m c,
  λ h.
      rw (h.blank, h.bos, h.values, h.bound)
        (complete c.durations c.max_symbols_per_step c.blank_id c.bos_id h.valid.some_duration
          h.valid.some_room),
)
