-- ===== src/Reminders/Book.antt =====
-- shannon/services/reminders/book.py: writing a reminder down, at most `most_waiting` a person a
-- server.
use Prim.Native.Char.{Char, code}
use shannon_bot.Base.{
  Bool, Option, String, false, if◌then◌else◌, leb, none, some, true, ℕ, ◌&&◌, ◌+◌, ◌||◌,
}
use shannon_bot.Delivery.Worker.{cut}
use shannon_bot.Reminders.Store.{Ask, Reminders, insert_reminder, waiting_from}

abbrev pub most_waiting : ℕ
most_waiting = 25

-- REMINDER_MESSAGE_WIDTH of shannon/db/models.py
abbrev pub message_width : ℕ
message_width = 500

-- ASCII's whitespace; `str.strip` takes Unicode's other spaces off too.
unfoldable pub is_space : Char → Bool
is_space c = (leb 9 (code c) && leb (code c) 13) || (leb 28 (code c) && leb (code c) 32)

unfoldable pub lstrip : String → String
unfolding is_space
lstrip String.[] = String.[]
lstrip (String.◌∷◌ c s) = let rest = lstrip s in if is_space c then rest else String.◌∷◌ c s

unfoldable pub is_empty : String → Bool
is_empty String.[] = true
is_empty (String.◌∷◌ c s) = false

-- Takes the spaces off the end: a character stays if it is no space or something stays after it.
unfoldable pub rstrip : String → String
unfolding is_space is_empty
rstrip String.[] = String.[]
rstrip (String.◌∷◌ c s) =
    let rest = rstrip s in if is_space c && is_empty rest then String.[] else String.◌∷◌ c rest

-- `(message or "").strip()[:REMINDER_MESSAGE_WIDTH] or None`
unfoldable pub said : Option String → Option String
unfolding lstrip rstrip cut is_empty
said none = none
said (some message) =
    let words = cut message_width (rstrip (lstrip message)) in
    if is_empty words then none else some words

pub data Added : Type 0 where
  due : ℕ → Added
  too_many_reminders : Added

-- `add`, in one transaction: the table, and when the reminder falls due.
unfoldable pub add : ℕ → ℕ → Ask → Reminders → Reminders × Added
unfolding said insert_reminder waiting_from
add now after ask t =
    if leb most_waiting (waiting_from ask.guild_id ask.set_by t) then (t, too_many_reminders) else (
      (insert_reminder (record ask { message = said ask.message }) now (now + after) t).0,
      due (now + after),
    )
