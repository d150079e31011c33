-- ===== src/Cli/Screen.antt =====
-- src/coda_node/server/cli.py: what is printed. A line is a text, the newest first.
use coda_self_service.Prelude.{
  ◌≡◌, refl, ℕ, zero, suc, ◌-◌, ◌/◌, String, ◌<>◌, List, [], ◌∷◌, ◌++◌, length, reverse,
}
use coda_self_service.Prelude.Text.{chars}
use coda_self_service.Effects.{Action, modify}
use coda_self_service.Cli.State.{World}

-- a text so many times
abbrev pub times : ℕ → String → String
times zero s = ""
times (suc n) s = s <> times n s

abbrev pub len : String → ℕ
len s = length (chars s)

-- `f"{s:<w}"` and `f"{s:^w}"`
abbrev pub left_in : ℕ → String → String
left_in w s = s <> times (w - len s) " "

abbrev pub centred_in : ℕ → String → String
centred_in w s =
    let space = w - len s in
    let before = space / 2 in times before " " <> s <> times (space - before) " "

-- `_BANNER_WIDTH`
abbrev pub banner_width : ℕ
banner_width = 48

abbrev pub banner_rows : List (String × String) → List String
banner_rows [] = []
banner_rows ((label, value) ∷ rows) = ("  " <> left_in 14 label <> value) ∷ banner_rows rows

-- the lines of `_print_banner`, in their order
abbrev pub banner : String → List (String × String) → List String
banner title rows =
    ""
    ∷ ("  ┌" <> times (banner_width - 2) "─" <> "┐")
    ∷ ("  │" <> centred_in (banner_width - 2) title <> "│")
    ∷ ("  └" <> times (banner_width - 2) "─" <> "┘")
    ∷ ""
    ∷ (banner_rows rows ++ "" ∷ ("  " <> times banner_width "─") ∷ "" ∷ [])

abbrev pub status_row : String → String → String
status_row label value = "  " <> left_in 2 "→" <> " " <> left_in 14 label <> value

-- `print` of some lines
unfoldable pub print_lines : List String → Action World (Unit {0})
print_lines lines = modify (λ s. record s { printed = reverse lines ++ s.printed })

abbrev pub print_line : String → Action World (Unit {0})
print_line line = print_lines (line ∷ [])

abbrev pub print_banner : String → List (String × String) → Action World (Unit {0})
print_banner title rows = print_lines (banner title rows)

abbrev pub print_status : String → String → Action World (Unit {0})
print_status label value = print_line (status_row label value)

centred_runs : centred_in 7 "ab" ≡ "  ab   "
centred_runs = refl

status_row_runs : status_row "VPN PID" "absent" ≡ "  →  VPN PID       absent"
status_row_runs = refl
