-- ===== src/Temporal.antt =====
-- The temporal checks of e-acsl/e_acsl_temporal.h and e_acsl_temporal_timestamp.h, in builds with
-- E_ACSL_TEMPORAL: each block has the timestamp of its creation, and each pointer in memory carries
-- the one of the block that it pointed to when it was stored. The memory model is an interface.
use frama_c_snapshot.Prelude.{ℕ, ◌+◌, ◌%◌, Bool, true, not, ◌&&◌, ◌==◌, leb, ltb, if◌then◌else◌}
use frama_c_snapshot.Prelude.Bits.{pow2}
use frama_c_snapshot.Prelude.Run.{Run, ok, abort, fault, ◌>>=◌}

abbrev pub invalid_temporal_timestamp : ℕ
invalid_temporal_timestamp = 0

abbrev pub global_temporal_timestamp : ℕ
global_temporal_timestamp = 1

-- `NEW_TEMPORAL_TIMESTAMP()`, the next value of the 32-bit counter
abbrev pub new_temporal_timestamp : ℕ → ℕ
new_temporal_timestamp timestamp = (timestamp + 1) % pow2 32

-- What a memory model gives to the checks. The last two copy and clear the referents of a region.
pub record Referents (S : Type 0) : Type 0 where
  pub origin_timestamp : ℕ → S → Run ℕ
  pub referent_timestamp : ℕ → S → Run ℕ
  pub store_temporal_referent : ℕ → ℕ → S → Run S
  pub copy_referents : ℕ → ℕ → ℕ → S → Run S
  pub clear_referents : ℕ → ℕ → S → Run S

-- `struct temporal_parameter`, with its flow; `unset` is what a reset leaves
pub data TemporalParameter : Type 0 where
  unset : TemporalParameter
  block_n : ℕ → TemporalParameter
  referent_n : ℕ → TemporalParameter
  copied : ℕ → TemporalParameter

-- The memory, and the variables by which pointers pass between functions.
pub record Checked (S : Type 0) : Type 0 where
  pub store : S
  pub parameter_referents : ℕ → TemporalParameter
  pub return_referent : ℕ

abbrev pub max_parameters : ℕ
max_parameters = 127

module _ {S : Type 0} (r : Referents S) where
  unfoldable pub temporal_store_nblock : ℕ → ℕ → S → Run S
  temporal_store_nblock lhs rhs s =
      r.origin_timestamp rhs s >>= λ timestamp. r.store_temporal_referent lhs timestamp s

  unfoldable pub temporal_store_nreferent : ℕ → ℕ → S → Run S
  temporal_store_nreferent lhs rhs s =
      r.referent_timestamp rhs s >>= λ timestamp. r.store_temporal_referent lhs timestamp s

  unfoldable pub temporal_memcpy : ℕ → ℕ → ℕ → S → Run S
  temporal_memcpy dest src size s = if leb 8 size then r.copy_referents dest src size s else ok s

  unfoldable pub temporal_memset : ℕ → ℕ → S → Run S
  temporal_memset dest size s = r.clear_referents dest size s

  -- an assignment to `parameter_referents[param]`
  unfoldable pub save_parameter : TemporalParameter → ℕ → Checked S → Run (Checked S)
  save_parameter p param c =
      if ltb param max_parameters
      then ok (record c {
        parameter_referents = λ i. if i == param then p else c.parameter_referents i;
      })
      else fault

  unfoldable pub temporal_save_nblock_parameter : ℕ → ℕ → Checked S → Run (Checked S)
  unfolding save_parameter
  temporal_save_nblock_parameter ptr = save_parameter (block_n ptr)

  unfoldable pub temporal_save_nreferent_parameter : ℕ → ℕ → Checked S → Run (Checked S)
  unfolding save_parameter
  temporal_save_nreferent_parameter ptr = save_parameter (referent_n ptr)

  unfoldable pub temporal_save_copy_parameter : ℕ → ℕ → Checked S → Run (Checked S)
  unfolding save_parameter
  temporal_save_copy_parameter ptr = save_parameter (copied ptr)

  -- the switch on the flow of a parameter
  unfoldable pub pull : ℕ → ℕ → TemporalParameter → S → Run S
  unfolding temporal_store_nblock temporal_store_nreferent temporal_memcpy
  pull ptr size unset s = abort
  pull ptr size (block_n p) s = temporal_store_nblock ptr p s
  pull ptr size (referent_n p) s = temporal_store_nreferent ptr p s
  pull ptr size (copied p) s = temporal_memcpy ptr p size s

  unfoldable pub temporal_pull_parameter : ℕ → ℕ → ℕ → Checked S → Run (Checked S)
  unfolding pull
  temporal_pull_parameter ptr param size c =
      if ltb param max_parameters
      then (pull ptr size (c.parameter_referents param) c.store >>= λ s.
          ok (record c { store = s }))
      else fault

  unfoldable pub temporal_reset_parameters : Checked S → Checked S
  temporal_reset_parameters c = record c { parameter_referents = λ _. unset }

  -- The condition in the code, a comma expression, always holds.
  unfoldable pub temporal_save_return : ℕ → Checked S → Run (Checked S)
  temporal_save_return ptr c = r.referent_timestamp ptr c.store >>= λ timestamp.
      ok (record c { return_referent = timestamp })

  unfoldable pub temporal_pull_return : ℕ → Checked S → Run (Checked S)
  temporal_pull_return ptr c =
      r.store_temporal_referent ptr c.return_referent c.store >>= λ s. ok (record c { store = s })

  unfoldable pub temporal_reset_return : Checked S → Checked S
  temporal_reset_return c = record c { return_referent = 0 }

  unfoldable pub temporal_valid : ℕ → ℕ → S → Run Bool
  temporal_valid ptr addr_of_ptr s =
      if not (addr_of_ptr == 0) && not (ptr == addr_of_ptr)
      then (r.referent_timestamp addr_of_ptr s >>= λ stored_referent.
          r.origin_timestamp ptr s >>= λ actual_referent. ok (stored_referent == actual_referent))
      else ok true
