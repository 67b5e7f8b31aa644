-- ===== src/Decoding/Tdt/Trace.antt =====
-- What a decoded result looks like: its tokens, frames and durations fit together.
use jpapt_v2_2_inspection.Base.{ℕ, ◌≤◌, ◌<◌, ◌≡◌, ◌≢◌, length, All, count}
use jpapt_v2_2_inspection.Decoding.Tdt.{TdtDecoderConfig, TdtDecodeResult}
use jpapt_v2_2_inspection.Decoding.Tdt.Spacing.{Spaced}
use jpapt_v2_2_inspection.Decoding.Tdt.Reading.{Listed}

-- The decoded symbols of `frames` frames.
pub record IsTrace (config : TdtDecoderConfig) (frames : ℕ) (r : TdtDecodeResult) : Type 0 where
  pub end : ℕ
  pub as_many : length r.token_ids ≡ length r.frame_positions
  pub in_range : All (λ p. p < frames) r.frame_positions
  pub spaced : Spaced r.frame_positions r.durations end
  pub crowd : (p : ℕ) → count p r.frame_positions ≤ config.max_symbols_per_step
  pub no_blank : All (λ x. x ≢ config.blank_id) r.token_ids
  pub listed : All (Listed config) r.durations
  pub covered : frames ≤ end
