-- ===== src/Modem/Handlers/Compact.antt =====
-- The table is the list of the handlers that are registered, followed by empty entries.
use esp32c3_sms_gateway.Prelude.{
  ℕ, zero, suc, ◌≡◌, inl, inr, refl, ap, Bool-cases, Option, none, some, List, [], ◌∷◌, ◌++◌,
  replicate, ◌==◌, if◌then◌else◌,
}
use esp32c3_sms_gateway.Prelude.Result.{no_mem, not_found, Result, ok, err}
use esp32c3_sms_gateway.Modem.Handlers.{
  Table, keep, modem_register_urc_handler, shifted, modem_unregister_urc_handler,
  dispatch_urc_to_handlers,
}

-- The table of the handlers, with `free` empty entries.
abbrev pub table : List ℕ → ℕ → Table
table [] free = replicate free none
table (h ∷ hs) free = some h ∷ table hs free

-- The handlers without the first `h`, if there is one.
unfoldable pub without : ℕ → List ℕ → Option (List ℕ)
without h [] = none
without h (g ∷ hs) =
    let later = without h hs in
    if g == h then some hs else (elim later [ none ↦ none | some rest ↦ some (g ∷ rest) ])

register-table :
    (h : ℕ) (hs : List ℕ) (free : ℕ)
    → modem_register_urc_handler h (table hs (suc free)) ≡ ok (table (hs ++ h ∷ []) free)
unfolding modem_register_urc_handler
register-table h [] free = refl
register-table h (g ∷ hs) free = rw (register-table h hs free) refl

register-full : (h : ℕ) (hs : List ℕ) → modem_register_urc_handler h (table hs 0) ≡ err no_mem
unfolding modem_register_urc_handler
register-full h [] = refl
register-full h (g ∷ hs) = rw (register-full h hs) refl

shifted-table : (hs : List ℕ) (free : ℕ) → shifted (table hs free) ≡ table hs (suc free)
shifted-table [] zero = refl
shifted-table [] (suc free) = ap (λ t. none ∷ t) (shifted-table [] free)
shifted-table (h ∷ hs) free = ap (λ t. some h ∷ t) (shifted-table hs free)

abbrev pub removed : Option (List ℕ) → ℕ → Result Table
removed none free = err not_found
removed (some rest) free = ok (table rest (suc free))

keep-removed :
    (g : ℕ) (rest : Option (List ℕ)) (free : ℕ)
    → keep (some g) (removed rest free)
      ≡ removed (elim rest [ none ↦ none | some r ↦ some (g ∷ r) ]) free
keep-removed g none free = refl
keep-removed g (some rest) free = refl

unregister-table :
    (h : ℕ) (hs : List ℕ) (free : ℕ)
    → modem_unregister_urc_handler h (table hs free) ≡ removed (without h hs) free
unfolding modem_unregister_urc_handler without
unregister-table h [] zero = refl
unregister-table h [] (suc free) = rw (unregister-table h [] free) refl
unregister-table h (g ∷ hs) free = elim (Bool-cases (g == h)) [
  | inl same ↦ rw same (ap ok (shifted-table hs free))
  | inr other ↦ rw (other, unregister-table h hs free) (keep-removed g (without h hs) free)
]

dispatch-table : (hs : List ℕ) (free : ℕ) → dispatch_urc_to_handlers (table hs free) ≡ hs
unfolding dispatch_urc_to_handlers
dispatch-table [] zero = refl
dispatch-table [] (suc free) = refl
dispatch-table (h ∷ hs) free = ap (λ t. h ∷ t) (dispatch-table hs free)

-- On a table with the handlers in front of its empty entries: registering puts a handler behind the
-- others, or fails when there is no empty entry; removing takes out its first entry, or fails when
-- it has none; both leave such a table; and a notification calls all handlers in their order.
pub modem_register_urc_handler-table :
    (h : ℕ) (hs : List ℕ) (free : ℕ)
    → (modem_register_urc_handler h (table hs (suc free)) ≡ ok (table (hs ++ h ∷ []) free))
      × (modem_register_urc_handler h (table hs 0) ≡ err no_mem)
      × (modem_unregister_urc_handler h (table hs free) ≡ removed (without h hs) free)
      × (dispatch_urc_to_handlers (table hs free) ≡ hs)
modem_register_urc_handler-table h hs free = (
  register-table h hs free,
  register-full h hs,
  unregister-table h hs free,
  dispatch-table hs free,
)
