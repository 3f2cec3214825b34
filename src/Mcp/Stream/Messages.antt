-- ===== src/Mcp/Stream/Messages.antt =====
-- The event streams that app/gateway/mcp_transport.py reads, event by event.
use text.Mathlib.Text.{starts_with}
use mathlib.Core.List.{append-nil, append_assoc}
use ai_runtime_platform.Base.{
  String, ◌≡◌, refl, true, false, not, Option, none, some, List, [], ◌∷◌, ◌++◌, map, str_eq, eq_iff,
  if◌then◌else◌, Bool-cases, inl, inr, or_raise,
}
use ai_runtime_platform.Mcp.{Fields, Python}
use ai_runtime_platform.Mcp.Stream.{
  no_message, no_lines, or_keep, decode, data_text, read_lines, parse_sse_jsonrpc,
}

-- The last of the messages that are there.
abbrev pub latest : List (Option Fields) → Option Fields
latest [] = none
latest (m ∷ ms) = or_keep (latest ms) m

abbrev pub put_before : List String → List (List String) → List (List String)
put_before data_lines [] = data_lines ∷ []
put_before data_lines (event ∷ events) = (data_lines ++ event) ∷ events

module _ (py : Python) where
  abbrev pub data_of : String → List String
  data_of line = if starts_with line "data:" then data_text py line ∷ [] else []

  -- The lines of data of each event: an empty line ends one, and the text may end in another.
  abbrev pub events : List String → List (List String)
  events [] = [] ∷ []
  events (raw_line ∷ raw_lines) =
      let line = py.rstrip "\r" raw_line in
      if str_eq line "" then [] ∷ events raw_lines else put_before (data_of line) (events raw_lines)

  abbrev pub message_of : List String → Option Fields
  message_of event = if no_lines event then none else decode py event

put_before_twice :
    (a b : List String) (es : List (List String))
    → put_before a (put_before b es) ≡ put_before (a ++ b) es
put_before_twice a b [] = refl
put_before_twice a b (e ∷ es) = rw (append_assoc a b e) refl

or_keep_twice {ℓ} :
    {A : Type ℓ} (a b c : Option A) → or_keep a (or_keep b c) ≡ or_keep (or_keep a b) c
or_keep_twice none b c = refl
or_keep_twice (some a) b c = refl

or_keep-none {ℓ} : {A : Type ℓ} (a : Option A) → or_keep a none ≡ a
or_keep-none none = refl
or_keep-none (some a) = refl

no_data_line : (line : String) → str_eq line "" ≡ true → starts_with line "data:" ≡ false
no_data_line line h = let empty : line ≡ "" = (eq_iff line "").0 h in rw empty refl

module _ (py : Python) where
  put_before_none : (ls : List String) → put_before [] (events py ls) ≡ events py ls
  put_before_none [] = refl
  put_before_none (l ∷ ls) = elim (Bool-cases (str_eq (py.rstrip "\r" l) "")) [
    | inl blank ↦ rw blank refl
    | inr filled ↦ rw filled (put_before_twice [] (data_of py (py.rstrip "\r" l)) (events py ls))
  ]

  after_blank :
      (ls : List String)
      → ((held : List String) (found : Option Fields)
          → read_lines py ls held found
            ≡ or_keep (latest (map (message_of py) (put_before held (events py ls)))) found)
      → (data_lines : List String) (last : Option Fields)
      → (if not (no_lines data_lines)
          then read_lines py ls [] (or_keep (decode py data_lines) last)
          else read_lines py ls data_lines last)
        ≡ or_keep (latest (map (message_of py) ((data_lines ++ []) ∷ events py ls))) last
  after_blank ls read [] last = rw (read [] last, put_before_none ls) (or_keep_twice _ none last)
  after_blank ls read (d ∷ ds) last =
      rw (read [] (or_keep (decode py (d ∷ ds)) last), put_before_none ls, append-nil ds)
        (or_keep_twice _ (decode py (d ∷ ds)) last)

  -- The loop, from the lines of data that it holds and the message that it has.
  read_lines_lem :
      (ls data_lines : List String) (last : Option Fields)
      → read_lines py ls data_lines last
        ≡ or_keep (latest (map (message_of py) (put_before data_lines (events py ls)))) last
  unfolding read_lines
  read_lines_lem [] [] last = refl
  read_lines_lem [] (d ∷ ds) last = rw (append-nil ds) refl
  read_lines_lem (l ∷ ls) data_lines last =
      let line = py.rstrip "\r" l in
      elim (Bool-cases (str_eq line "")) [
        | inl blank ↦
            rw (no_data_line line blank, blank)
              (after_blank ls (λ held found. read_lines_lem ls held found) data_lines last)
        | inr filled ↦ elim (Bool-cases (starts_with line "data:")) [
          | inl has_data ↦
              rw
                (
                  filled,
                  has_data,
                  put_before_twice data_lines (data_text py line ∷ []) (events py ls),
                )
                (read_lines_lem ls (data_lines ++ data_text py line ∷ []) last)
          | inr other ↦ rw (filled, other, put_before_none ls) (read_lines_lem ls data_lines last)
        ]
      ]

  -- Whatever the lines of an event stream are: what is read from it is the message of the last
  -- event, between empty lines, whose data is a JSON object, and an error when there is none. Events
  -- without data, with broken JSON or with the end mark are passed over, and lines that are no data as well.
  pub last_message_is_read :
      (body : String)
      → parse_sse_jsonrpc py body
        ≡ or_raise (latest (map (message_of py) (events py (py.splitlines body)))) no_message
  unfolding parse_sse_jsonrpc
  last_message_is_read body =
      let lines = py.splitlines body in
      rw
        (
          read_lines_lem lines [] none,
          put_before_none lines,
          or_keep-none (latest (map (message_of py) (events py lines))),
        )
        refl
