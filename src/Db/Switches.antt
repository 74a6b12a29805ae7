-- ===== src/Db/Switches.antt =====
-- internal/db/lang.go and logger.go: the language of a chat and the logger's switch. `fault` is the
-- error of a call, if any.
use tg.Base.{
  ℕ, ◌≡◌, refl, Option, none, some, Bool, true, false, Text, bytes, ℤ, int_eq, text_eq,
  if◌then◌else◌, ◌==◌, ◌&&◌, arith, Result, ok, err, format_int, format_int-injective,
}
use mathlib.Core.Option
use tg.Db.Collection.{Collection}
use tg.Db.Cached.{Table, read, write_set, IsCoherent, read-find_one, write_set-IsCoherent}

abbrev pub is_none : Option Text → Bool
is_none none = true
is_none (some e) = false

-- lang.go
module _ (C : Collection ℤ Text) where
  abbrev pub or_english : Result Text (Option Text) → Result Text Text
  or_english (err e) = err e
  or_english (ok none) = ok (bytes "en")
  or_english (ok (some lang)) = ok lang

  unfoldable pub get_language : ℕ → Option Text → ℤ → Table C → Table C × Result Text Text
  get_language now fault chat s =
      let (s', r) = read C format_int now fault chat s in (s', or_english r)

  unfoldable pub set_language : ℕ → Option Text → ℤ → Text → Table C → Table C × Option Text
  set_language now fault chat lang s = write_set C format_int now fault chat lang s

  -- Where the cache agrees with the collection and the server answers the read, a chat speaks the
  -- language that was set last, and English where none was set; a write that fails changes
  -- nothing and is reported.
  pub get_language-set_language :
      (now later : ℕ) (fault : Option Text) (chat j : ℤ) (lang : Text) (s : Table C)
      → IsCoherent C format_int s
      → let (s', failed) = set_language now fault chat lang s in
        ((get_language later none j s').1
          ≡ ok (
              if chat == j && is_none fault
              then lang
              else Option.get_or (C.find_one j s.store) (bytes "en")))
        × (failed ≡ fault)
  unfolding set_language get_language write_set
  get_language-set_language now later (some x) chat j lang s h =
      (ground (arith, read-find_one C format_int later none j s h), refl)
  get_language-set_language now later none chat j lang s h =
      let s' = (write_set C format_int now none chat lang s).0 in
      (
        ground (
          arith,
          read-find_one C format_int later none j s'
              (write_set-IsCoherent C format_int now none chat lang s format_int-injective h),
          C.find_one-upsert chat j (λ _. lang) lang s.store,
        ),
        refl,
      )

-- logger.go
module _ (C : Collection Text Bool) where
  abbrev pub logger_key : Text
  logger_key = bytes "logger"

  abbrev pub or_off : Result Text (Option Bool) → Bool
  or_off (err e) = false
  or_off (ok none) = false
  or_off (ok (some status)) = status

  unfoldable pub get_logger_status : ℕ → Option Text → Table C → Table C × Bool
  get_logger_status now fault s =
      let (s', r) = read C (λ k. k) now fault logger_key s in (s', or_off r)

  unfoldable pub set_logger_status : ℕ → Option Text → Bool → Table C → Table C × Option Text
  set_logger_status now fault status s = write_set C (λ k. k) now fault logger_key status s

  -- Where the cache agrees with the collection and the server answers the read, the logger is on
  -- exactly if it was switched on last; a write that fails changes nothing and is reported.
  pub get_logger_status-set_logger_status :
      (now later : ℕ) (fault : Option Text) (status : Bool) (s : Table C)
      → IsCoherent C (λ k. k) s
      → let (s', failed) = set_logger_status now fault status s in
        ((get_logger_status later none s').1
          ≡ (if is_none fault then status else Option.get_or (C.find_one logger_key s.store) false))
        × (failed ≡ fault)
  unfolding set_logger_status get_logger_status write_set
  get_logger_status-set_logger_status now later (some x) status s h =
      (ground (arith, read-find_one C (λ k. k) later none logger_key s h), refl)
  get_logger_status-set_logger_status now later none status s h =
      let s' = (write_set C (λ k. k) now none logger_key status s).0 in
      (
        ground (
          arith,
          read-find_one C (λ k. k) later none logger_key s'
              (write_set-IsCoherent C (λ k. k) now none logger_key status s (λ a b e. e) h),
          C.find_one-upsert logger_key logger_key (λ _. status) status s.store,
        ),
        refl,
      )
