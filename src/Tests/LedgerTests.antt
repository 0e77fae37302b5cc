-- ===== src/Tests/LedgerTests.antt =====
-- The chain, its canonical strings and the normalisation on concrete entries.
use esclusa.Prelude.{◌^◌, true, false, some, none, [], ◌∷◌, ◌≡◌, ◌↔◌, ◌⊎◌, refl}
use esclusa.Prelude.Int.{pos, add_one_i64}
use esclusa.Text.{byte_len, show, show_ℤ}
use esclusa.Json
use esclusa.Json.{Value, field, end}
use esclusa.Ledger.{
  Entry, genesis, verify_chain, first_broken, hmac_hex, canonical_string, push_field,
  entry_canonical, normalize_params, ts_string,
}
use esclusa.Ledger.Canonical.{SameContent, entry_canonical-injective}
use esclusa.Ledger.Chain.{IsChain, BreakAt, verify_chain-valid_iff, verify_chain-broken_iff}
use esclusa.Ledger.Tamper.{SameHistory, Collision, report_fixes_history, edit_is_named}
use esclusa.Ledger.Normalize.{
  Replaced, HasZero, has_negative_zero, negative_zero, normalize_params_lem,
}
use esclusa.Ledger.Store.{next_entry, stored_row}
use esclusa.Tests.Fixtures.{Num, int, float, toy, key, asked, print, texts_differ}

abbrev first : Entry Num
first = next_entry toy key asked none 5_000_000_000

abbrev second : Entry Num
second =
    next_entry toy key (record asked { action = "env.set" })
      (some (stored_row toy first 5_000_000_000)) 6_000_000_000

-- Another reason of the same length, which the toy HMAC does not tell apart.
abbrev twin : Entry Num
twin = record second { reason = "no refusal policy matched; action allowed and Recorded" }

abbrev forged : Entry Num
forged = record second { reason = "nothing to see" }

two_valid : (verify_chain toy key (first ∷ second ∷ [])).valid ≡ true
unfolding verify_chain first_broken hmac_hex entry_canonical canonical_string push_field next_entry
    normalize_params ts_string stored_row show show_ℤ print add_one_i64 byte_len
two_valid = refl

twins_agree : verify_chain toy key (first ∷ second ∷ []) ≡ verify_chain toy key (first ∷ twin ∷ [])
unfolding verify_chain first_broken hmac_hex entry_canonical canonical_string push_field next_entry
    normalize_params ts_string stored_row show show_ℤ print add_one_i64 byte_len
twins_agree = refl

reasons_differ : ¬ SameContent toy second forged
unfolding next_entry
reasons_differ s =
    texts_differ "no refusal policy matched; action allowed and recorded" "nothing to see" refl
      s.reason

verify_chain-valid_iff_example :
    ((verify_chain toy key (first ∷ second ∷ [])).valid ≡ true)
    ↔ IsChain toy key genesis (first ∷ second ∷ [])
verify_chain-valid_iff_example = verify_chain-valid_iff toy key (first ∷ second ∷ [])

verify_chain-broken_iff_example :
    ((verify_chain toy key (first ∷ forged ∷ [])).broken_at ≡ some (pos 2))
    ↔ BreakAt toy key genesis (first ∷ forged ∷ []) (pos 2)
verify_chain-broken_iff_example = verify_chain-broken_iff toy key (first ∷ forged ∷ []) (pos 2)

forged_named : (verify_chain toy key (first ∷ forged ∷ [])).broken_at ≡ some (pos 2)
unfolding verify_chain first_broken hmac_hex entry_canonical canonical_string push_field next_entry
    normalize_params ts_string stored_row show show_ℤ print add_one_i64 byte_len
forged_named = refl

report_fixes_history_example :
    SameHistory toy key (first ∷ second ∷ []) (first ∷ twin ∷ []) ⊎ Collision toy key
report_fixes_history_example =
    report_fixes_history toy key (first ∷ second ∷ []) (first ∷ twin ∷ []) two_valid twins_agree

edit_is_named_example :
    ((verify_chain toy key (first ∷ forged ∷ [])).broken_at ≡ some forged.id) ⊎ Collision toy key
edit_is_named_example =
    edit_is_named toy key (first ∷ []) second forged [] two_valid refl reasons_differ

entry_canonical-injective_example : SameContent toy first (record first { hmac = "0" })
unfolding entry_canonical
entry_canonical-injective_example =
    entry_canonical-injective toy first (record first { hmac = "0" }) refl

abbrev toy-HasZero : HasZero toy
toy-HasZero = record { zero = float 0; made = refl; read_back = refl }

abbrev signed : Value Num
signed =
    Json.object
      (field "delta" (Json.number (float (2 ^ 63))) (field "n" (Json.number (int (pos 3))) end))

normalize_params_lem_example :
    Replaced toy (float 0) signed (normalize_params toy signed)
    × (has_negative_zero toy (normalize_params toy signed) ≡ false)
    × ((has_negative_zero toy signed ≡ false) ↔ (normalize_params toy signed ≡ signed))
    × (normalize_params toy (normalize_params toy signed) ≡ normalize_params toy signed)
normalize_params_lem_example = normalize_params_lem toy toy-HasZero signed

signed_found : has_negative_zero toy signed ≡ true
unfolding has_negative_zero negative_zero
signed_found = refl
