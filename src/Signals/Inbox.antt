-- ===== src/Signals/Inbox.antt =====
-- autotrader/signals/inbox.py: `SignalInbox.poll` on the folder that it watches. A file is a name and a
-- text; the validation, with the date and the targets that it reads, is a parameter.
use autotrader_ai.Prelude.{
  ◌≡◌, refl, ◌∙◌, ◌+◌, Bool, true, false, Option, none, some, List, [], ◌∷◌, ◌++◌, map, arith,
  if◌then◌else◌, null, All, All-append,
}
use autotrader_ai.Prelude.Tally.{tally, tally-cons}
use autotrader_ai.Prelude.Text.{Text, text_lt, upper}
use autotrader_ai.Float.{Float, IsOrdered, fzero, fone}
use autotrader_ai.Domain.{Signal}
use autotrader_ai.Signals.Normalize.{Payload, normalize_payload}
use autotrader_ai.Signals.Valid.{IsValid, normalize_payload-IsValid}

pub record Validated (W : Type 0) : Type 0 where
  pub payload : Payload W
  pub day : Text
  pub targets : List (Text × W)

-- How the store of the targets ends: `caught` is one of the errors that the poll catches, and `thrown`
-- any other exception, such as the one of a database that refuses a row.
pub data Stored : Type 0 where
  done caught thrown : Stored

pub record Feed (W S : Type 0) : Type 0 where
  pub validate : Text → Option (Validated W)
  pub on_targets : Option (Text → List (Text × W) → S → Stored × S)
  pub scale : W

-- What one poll leaves: the signals that it answers, none where it raises, and the files in the order
-- in which they were taken, moved to one of the two folders or left where they are.
pub record Polled (W S : Type 0) : Type 0 where
  pub signals : Option (List (Signal W))
  pub processed : List Text
  pub rejected : List Text
  pub left : List Text
  pub outside : S

abbrev pub names_of : List (Text × Text) → List Text
names_of = map (λ file. file.0)

-- `sorted(dir.glob("*.json"))`
unfoldable pub insert_file : Text × Text → List (Text × Text) → List (Text × Text)
unfolding text_lt
insert_file x [] = x ∷ []
insert_file x (y ∷ ys) = if text_lt y.0 x.0 then y ∷ insert_file x ys else x ∷ y ∷ ys

unfoldable pub sort_files : List (Text × Text) → List (Text × Text)
unfolding insert_file
sort_files [] = []
sort_files (x ∷ xs) = insert_file x (sort_files xs)

tally-insert_file :
    (test : Text → Bool) (x : Text × Text) (files : List (Text × Text))
    → tally test (names_of (insert_file x files)) ≡ tally test (x.0 ∷ names_of files)
unfolding insert_file tally
tally-insert_file test x [] = refl
tally-insert_file test x (y ∷ ys) = ground (arith, tally-insert_file test x ys)

tally-sort_files :
    (test : Text → Bool) (files : List (Text × Text))
    → tally test (names_of (sort_files files)) ≡ tally test (names_of files)
unfolding sort_files tally
tally-sort_files test [] = refl
tally-sort_files test (x ∷ xs) =
    tally-insert_file test x (sort_files xs) ∙ ground (arith, tally-sort_files test xs)

module _ {W S : Type 0} ⦃f : Float W⦄ (feed : Feed W S) where
  -- `if payload.portfolio_targets and on_targets is not None`
  unfoldable pub take_targets : Validated W → S → Stored × S
  take_targets v s = if null v.targets then (Stored.done, s) else elim feed.on_targets [
    | none ↦ (Stored.done, s)
    | some store ↦ store v.day (map (λ t. (upper t.0, t.1)) v.targets) s
  ]

  unfoldable pub reject_file : Text → Polled W S → Polled W S
  reject_file name p = record p { rejected = name ∷ p.rejected }

  unfoldable pub accept_file : Text → List (Signal W) → Polled W S → Polled W S
  accept_file name signals p = record p {
    signals = elim p.signals [ none ↦ none | some rest ↦ some (signals ++ rest) ];
    processed = name ∷ p.processed;
  }

  -- The exception ends the poll, and the signals of the files before go with it.
  unfoldable pub abandon : Text → List (Text × Text) → S → Polled W S
  abandon name files s = record {
    signals = none;
    processed = [];
    rejected = [];
    left = name ∷ names_of files;
    outside = s;
  }

  -- What becomes of a valid file, with what the poll of the rest of the files leaves.
  unfoldable pub settle_file :
      Stored → Text → Validated W → List (Text × Text) → S → Polled W S → Polled W S
  unfolding accept_file reject_file abandon
  settle_file Stored.done name v files s rest =
      accept_file name (normalize_payload v.payload feed.scale) rest
  settle_file Stored.caught name v files s rest = reject_file name rest
  settle_file Stored.thrown name v files s rest = abandon name files s

  -- The rest of the files is taken in the state that this one leaves.
  unfoldable pub poll_files : List (Text × Text) → S → Polled W S
  unfolding take_targets reject_file settle_file
  poll_files [] s = record {
    signals = some [];
    processed = [];
    rejected = [];
    left = [];
    outside = s;
  }
  poll_files ((name, body) ∷ files) s = elim (feed.validate body) [
    | none ↦ reject_file name (poll_files files s)
    | some v ↦
        let (stored, s') = take_targets v s in
        settle_file stored name v files s' (poll_files files s')
  ]

  unfoldable pub poll_folder : List (Text × Text) → S → Polled W S
  unfolding poll_files sort_files
  poll_folder files s = poll_files (sort_files files) s

  -- As many names as before, under any test.
  abbrev Accounts : (Text → Bool) → List Text → Polled W S → Type 0
  Accounts test names p =
      tally test p.processed + tally test p.rejected + tally test p.left ≡ tally test names

  -- A poll that answers has left no file; one that raises has left some.
  abbrev pub Answered : Option (List (Signal W)) → List Text → Type 0
  Answered none left = null left ≡ false
  Answered (some signals) left = (left ≡ []) × All IsValid signals

  abbrev Settled : (Text → Bool) → List Text → Polled W S → Type 0
  Settled test names p = Accounts test names p × Answered p.signals p.left

  reject_file-Settled :
      (test : Text → Bool) (name : Text) (names : List Text) (p : Polled W S)
      → Settled test names p
      → Settled test (name ∷ names) (reject_file name p)
  unfolding reject_file
  reject_file-Settled test name names p (counts, answer) =
      (omega (arith, counts, tally-cons test name names, tally-cons test name p.rejected), answer)

  more_signals :
      (new : List (Signal W)) (answer : Option (List (Signal W))) (left : List Text)
      → All IsValid new
      → Answered answer left
      → Answered (elim answer [ none ↦ none | some rest ↦ some (new ++ rest) ]) left
  more_signals new none left good h = h
  more_signals new (some rest) left good (h, hs) = (h, All-append IsValid new rest good hs)

  accept_file-Settled :
      (test : Text → Bool) (name : Text) (names : List Text) (new : List (Signal W))
      (p : Polled W S)
      → All IsValid new
      → Settled test names p
      → Settled test (name ∷ names) (accept_file name new p)
  unfolding accept_file
  accept_file-Settled test name names new p good (counts, answer) = (
    omega (arith, counts, tally-cons test name names, tally-cons test name p.processed),
    more_signals new p.signals p.left good answer,
  )

  module _ (laws : IsOrdered W) (zz : f.le fzero fzero ≡ true) (zo : f.le fzero fone ≡ true)
      (oo : f.le fone fone ≡ true) (test : Text → Bool) where
    settle_file-Settled :
        (stored : Stored) (name : Text) (v : Validated W) (files : List (Text × Text)) (s : S)
        (rest : Polled W S)
        → Settled test (names_of files) rest
        → Settled test (name ∷ names_of files) (settle_file stored name v files s rest)
    unfolding settle_file abandon tally
    settle_file-Settled Stored.done name v files s rest h =
        accept_file-Settled test name (names_of files) _ rest
          (normalize_payload-IsValid laws v.payload feed.scale zz zo oo) h
    settle_file-Settled Stored.caught name v files s rest h =
        reject_file-Settled test name (names_of files) rest h
    settle_file-Settled Stored.thrown name v files s rest h = (omega arith, refl)

    file-Settled :
        (name : Text) (files : List (Text × Text)) (s : S) (o : Option (Validated W))
        → ((s' : S) → Settled test (names_of files) (poll_files files s'))
        → Settled test (name ∷ names_of files) (elim o as (λ _. Polled W S) [
          | none ↦ reject_file name (poll_files files s)
          | some v ↦
              settle_file
                (take_targets v s).0
                name
                v
                files
                (take_targets v s).1
                (poll_files files (take_targets v s).1)
        ])
    file-Settled name files s none later =
        reject_file-Settled test name (names_of files) _ (later s)
    file-Settled name files s (some v) later =
        settle_file-Settled (take_targets v s).0 name v files (take_targets v s).1 _
          (later (take_targets v s).1)

    poll_files-Settled :
        (files : List (Text × Text)) (s : S) → Settled test (names_of files) (poll_files files s)
    unfolding poll_files tally
    poll_files-Settled [] s = (omega arith, (refl, tt))
    poll_files-Settled ((name, body) ∷ files) s =
        file-Settled name files s (feed.validate body) (λ s'. poll_files-Settled files s')

    -- Whatever the validation answers and however the store of the targets ends, each file of the
    -- folder is afterwards in exactly one of three places, moved to the processed or to the rejected
    -- ones or left where it was: under any test of names, as many of these together satisfy it as of
    -- the files before. A poll that answers has left no file, and each of its signals passes the
    -- checks of the signal's constructor and has a qualified symbol; a poll that raises has left one
    -- at least. Floats are ordered (`IsOrdered`), zero and one among them.
    pub poll_folder_lem :
        (files : List (Text × Text)) (s : S)
        → (tally test (poll_folder files s).processed
              + tally test (poll_folder files s).rejected
              + tally test (poll_folder files s).left
            ≡ tally test (names_of files))
          × Answered (poll_folder files s).signals (poll_folder files s).left
    unfolding poll_folder
    poll_folder_lem files s =
        let (counts, answer) = poll_files-Settled (sort_files files) s in
        (counts ∙ tally-sort_files test files, answer)
