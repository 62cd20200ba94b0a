-- ===== src/Push/Template.antt =====
-- `str_replace_inplace` of push_service.c. The new text is built behind the old one in the same
-- array and then copied to its front by `memcpy`, which C leaves undefined where the two overlap:
-- `fault` stands for that too.
pub mod Replace
use esp32c3_sms_gateway.Prelude.{
  ℕ, zero, suc, ◌+◌, ◌-◌, Bool, true, false, ◌||◌, ◌&&◌, Option, none, some, List, [], ◌∷◌, ◌++◌,
  length, take, drop, ltb, leb, ◌==◌, if◌then◌else◌,
}
use esp32c3_sms_gateway.Prelude.Result.{Result, ok, fault, stuck}
use esp32c3_sms_gateway.Prelude.Text.{find_str}

-- The text that the loop leaves in the workspace, and whether the needle was found. `tmp` is the
-- text still to read, `out` the `wp` characters written.
unfoldable pub replace_loop :
    ℕ → List ℕ → List ℕ → ℕ → List ℕ → List ℕ → Bool → Result (List ℕ × Bool)
replace_loop zero needle replacement workspace_max tmp out found = stuck
replace_loop (suc fuel) needle replacement workspace_max tmp out found =
    elim (find_str needle tmp) [
      | none ↦
          let remain = length tmp in
          ok (
            if ltb 0 remain && ltb (length out + remain) workspace_max then out ++ tmp else out,
            found,
          )
      | some p ↦
          let before = length tmp - length p in
          let rest =
            replace_loop fuel needle replacement workspace_max (drop (length needle) p)
              (out ++ (take before tmp ++ replacement)) true in
          if leb workspace_max (length out + before + length replacement)
          then ok (out, true)
          else rest
    ]

-- The last copy of `wp + 1` bytes from the place behind the terminator of the target to its front.
unfoldable pub copy_back : List ℕ → List ℕ × Bool → Result (List ℕ)
copy_back target (workspace, found) =
    if found
    then (if leb (length workspace) (length target) then ok workspace else fault)
    else ok target

unfoldable pub str_replace_inplace : List ℕ → List ℕ → List ℕ → ℕ → Result (List ℕ)
str_replace_inplace target needle replacement max_len =
    if max_len == 0 || (length target == 0 || length needle == 0)
    then ok target
    else if leb max_len (length target + 16)
    then ok target
    else elim (replace_loop (suc (length target)) needle replacement (max_len - length target - 1)
        target [] false) [
          | ok r ↦ copy_back target r
          | Result.err e ↦ Result.err e
          | fault ↦ fault
          | stuck ↦ stuck
        ]
