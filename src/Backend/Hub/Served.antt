-- ===== src/Backend/Hub/Served.antt =====
-- What is under way for the clients, and what their pages come to show.
use gbc_smart_management.Base.{
  ℕ, Bool, true, false, ◌≡◌, refl, ◌∙◌, ap, List, [], ◌∷◌, ◌++◌, Option, some,
}
use gbc_smart_management.Store.{Store, TableState}
use gbc_smart_management.Socket.Messages.{received}
use gbc_smart_management.Backend.Tables.{TableCell}
use gbc_smart_management.Backend.Hub.{Connection, Greeting, due, made, queued, is_staff}
use gbc_smart_management.Backend.Hub.Queues.{drained, shown_as, tables_then, tables_then-end}

-- The broadcasts that are under way, and the tables of the server.
module _ (items : List (List TableCell)) (now : List TableCell) where
  abbrev pub EndsIn : Connection → Type 0
  EndsIn c = tables_then items (drained c) ≡ shown_as now

  -- The message that is made, but not queued, is of the tables that are now, or of a broadcast before.
  abbrev pub IsMade : Greeting → Type 0
  IsMade due = Unit
  IsMade (made m) = (store : Store) → tables_then items (received m store).tables ≡ shown_as now
  IsMade queued = Unit

  abbrev pub IsGreeted : Connection → Greeting → Type 0
  IsGreeted c due = Unit
  IsGreeted c (made m) = Unit
  IsGreeted c queued = EndsIn c

  -- What holds of a client of an administrator or of the staff.
  pub record IsServed (c : Connection) : Type 0 where
    pub own : IsMade c.greeting
    pub page : IsGreeted c c.greeting

  pub record IsSettled (clients : ℕ → Option Connection) : Type 0 where
    pub latest : tables_then items (shown_as now) ≡ shown_as now
    pub pages : (i : ℕ) (c : Connection) → clients i ≡ some c → is_staff c.role ≡ true → IsServed c

unfoldable pub unhurried : Greeting → Bool
unhurried due = true
unhurried (made m) = false
unhurried queued = true

module _ (items : List (List TableCell)) (now : List TableCell) where
  pub IsGreeted-drained :
      (c d : Connection) (g : Greeting)
      → drained d ≡ drained c
      → IsGreeted items now c g
      → IsGreeted items now d g
  IsGreeted-drained c d due same page = tt
  IsGreeted-drained c d (made m) same page = tt
  IsGreeted-drained c d queued same page = ap (tables_then items) same ∙ page

  pub EndsIn-IsServed :
      (d : Connection) (g : Greeting)
      → unhurried g ≡ true
      → EndsIn items now d
      → IsMade items now g × IsGreeted items now d g
  unfolding unhurried
  EndsIn-IsServed d due calm ends = (tt, tt)
  EndsIn-IsServed d (made m) calm ends = cc calm
  EndsIn-IsServed d queued calm ends = (tt, ends)

  -- Where the tables of the server are the last broadcast under way, nothing else counts.
  module _
      (last : (shown : Option (List TableState)) → tables_then items shown ≡ shown_as now) where
    last-IsMade : (g : Greeting) → IsMade items now g
    last-IsMade due = tt
    last-IsMade (made m) = λ store. last _
    last-IsMade queued = tt

    last-IsGreeted : (c : Connection) (g : Greeting) → IsGreeted items now c g
    last-IsGreeted c due = tt
    last-IsGreeted c (made m) = tt
    last-IsGreeted c queued = last _

    pub last-IsSettled : (clients : ℕ → Option Connection) → IsSettled items now clients
    last-IsSettled clients = record {
      latest = last _;
      pages = λ i c at_i staff. record {
        own = last-IsMade c.greeting;
        page = last-IsGreeted c c.greeting;
      };
    }

pub tables_then_last :
    (items more : List (List TableCell)) (ts : List TableCell) (shown : Option (List TableState))
    → tables_then (items ++ (more ++ ts ∷ [])) shown ≡ shown_as ts
tables_then_last [] more ts shown = tables_then-end more ts shown
tables_then_last (x ∷ items) more ts shown = tables_then_last items more ts (shown_as x)

pub sent_before :
    (items more : List (List TableCell)) (ts : List TableCell)
    → (items ++ ts ∷ []) ++ more ≡ items ++ ts ∷ more
sent_before [] more ts = refl
sent_before (x ∷ items) more ts = ap (λ xs. x ∷ xs) (sent_before items more ts)
