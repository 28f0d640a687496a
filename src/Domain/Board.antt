-- ===== src/Domain/Board.antt =====
-- shannon/domain/board.py: reading a board's column, and which moves a board allows.
use shannon_bot.Base.{List, Option, [], if◌then◌else◌, leb, ltb, none, some, ℕ, ◌&&◌, ◌+◌, ◌∷◌}
use shannon_bot.Domain.Enums.{Status, backlog, done, in_review, not_reviewed}
use shannon_bot.Domain.Priority.{look_up}
use shannon_bot.Domain.Text.{Text, codes, join, lower, strip, text_eq, words}

-- `_COLUMNS`
abbrev pub column_words : List (Text × Status)
column_words =
    (codes "backlog", backlog)
    ∷ (codes "icebox", backlog)
    ∷ (codes "on hold", backlog)
    ∷ (codes "blocked", backlog)
    ∷ (codes "not reviewed", not_reviewed)
    ∷ (codes "todo", not_reviewed)
    ∷ (codes "to do", not_reviewed)
    ∷ (codes "new", not_reviewed)
    ∷ (codes "open", not_reviewed)
    ∷ (codes "ready", not_reviewed)
    ∷ (codes "in review", in_review)
    ∷ (codes "in progress", in_review)
    ∷ (codes "doing", in_review)
    ∷ (codes "started", in_review)
    ∷ (codes "under review", in_review)
    ∷ (codes "done", done)
    ∷ (codes "closed", done)
    ∷ (codes "complete", done)
    ∷ (codes "completed", done)
    ∷ (codes "shipped", done)
    ∷ []

-- `_SEPARATORS.sub(" ", column.strip().lower()).strip()`: runs of separators become one space, and
-- none is left at an end, so it is the words joined by spaces.
unfoldable pub normalise : Text → Text
unfolding words join strip lower
normalise column = join (32 ∷ []) (words (lower (strip column)))

unfoldable pub status_from_column : Option Text → Option Status
unfolding look_up normalise
status_from_column none = none
status_from_column (some []) = none
status_from_column (some (c ∷ s)) = look_up (normalise (c ∷ s)) column_words

-- `order.get(normalise(column))`, for `order` built by `setdefault` over `enumerate(columns)` from
-- the number `at`: the first place with that normal form.
unfoldable pub place_of : ℕ → Text → List Text → Option ℕ
unfolding text_eq normalise
place_of at name [] = none
place_of at name (column ∷ rest) =
    let found = place_of (at + 1) name rest in
    if text_eq (normalise column) name then some at else found

-- `columns[at] for at in range(start, stop)`, for the columns from the number `at` on.
unfoldable pub between : ℕ → ℕ → ℕ → List Text → List Text
between at start stop [] = []
between at start stop (column ∷ rest) =
    let found = between (at + 1) start stop rest in
    if leb start at && ltb at stop then column ∷ found else found

unfoldable pub steps : Option ℕ → Option ℕ → List Text → List Text
unfolding between
steps none there columns = []
steps (some here) none columns = []
steps (some here) (some there) columns =
    if leb there here then [] else between 0 (here + 1) there columns

unfoldable pub place_from : Option Text → List Text → Option ℕ
unfolding place_of
place_from none columns = none
place_from (some []) columns = none
place_from (some (c ∷ s)) columns = place_of 0 (normalise (c ∷ s)) columns

unfoldable pub must_pass_through : List Text → Option Text → Text → List Text
unfolding steps place_from place_of
must_pass_through columns frm to =
    steps (place_from frm columns) (place_of 0 (normalise to) columns) columns
