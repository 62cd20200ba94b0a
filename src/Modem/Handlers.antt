-- ===== src/Modem/Handlers.antt =====
-- The table of handlers for notifications: `modem_register_urc_handler`,
-- `modem_unregister_urc_handler` and `dispatch_urc_to_handlers` of modem_driver.c. A handler stands for
-- the pair of its function and its context.
pub mod Compact
use esp32c3_sms_gateway.Prelude.{
  ℕ, zero, suc, ◌+◌, ◌-◌, Bool, true, false, Option, none, some, List, [], ◌∷◌, ◌++◌, map, length,
  replicate, ltb, ◌==◌, if◌then◌else◌,
}
use esp32c3_sms_gateway.Prelude.Result.{EspErr, no_mem, not_found, Result, ok, err, fault, stuck}

-- The four entries of `urc_handlers`; an empty one is `none`.
abbrev pub Table : Type 0
Table = List (Option ℕ)

-- An entry in front of the ones that are left.
abbrev pub keep : Option ℕ → Result Table → Result Table
keep g (ok later) = ok (g ∷ later)
keep g (err e) = err e
keep g fault = fault
keep g stuck = stuck

-- The first empty entry is filled.
unfoldable pub modem_register_urc_handler : ℕ → Table → Result Table
modem_register_urc_handler h [] = err no_mem
modem_register_urc_handler h (none ∷ t) = ok (some h ∷ t)
modem_register_urc_handler h (some g ∷ t) = keep (some g) (modem_register_urc_handler h t)

-- The entries behind the place are moved up, and the last one is emptied.
abbrev pub shifted : Table → Table
shifted t = t ++ none ∷ []

-- The first entry with the handler is taken out;
unfoldable pub modem_unregister_urc_handler : ℕ → Table → Result Table
modem_unregister_urc_handler h [] = err not_found
modem_unregister_urc_handler h (none ∷ t) = keep none (modem_unregister_urc_handler h t)
modem_unregister_urc_handler h (some g ∷ t) =
    let rest = modem_unregister_urc_handler h t in
    if g == h then ok (shifted t) else keep (some g) rest

-- The handlers that are called, in their order: the loop ends at the first empty entry.
unfoldable pub dispatch_urc_to_handlers : Table → List ℕ
dispatch_urc_to_handlers [] = []
dispatch_urc_to_handlers (none ∷ t) = []
dispatch_urc_to_handlers (some h ∷ t) = h ∷ dispatch_urc_to_handlers t
