-- ===== src/Backend/Accounts/Listed.antt =====
-- The list of users on the page, and the accounts.
use gbc_smart_management.Base.{
  Bool, true, false, not, ◌&&◌, ◌≡◌, inl, inr, refl, sym, ◌∙◌, ap, List, [], ◌∷◌, some, String,
  str_eq, Bool-cases, Option-cases,
}
use gbc_smart_management.Users.{UserList}
use gbc_smart_management.Users.Directory.{
  Directory, directory, Command, change_role, delete_user, run_command, apply_command,
  run_command-directory,
}
use gbc_smart_management.Backend.Bookings.{Answer, ok, failed}
use gbc_smart_management.Backend.Accounts.{
  Firebase, is_valid_role, account_answer, handle_set_role, handle_delete_user,
}

-- What the administrator does: a change of a role, or a deletion with the answer to the question.
pub data Order : Type 0 where
  sets : String → String → Order
  deletes : Bool → String → Order

abbrev pub is_ok : {A : Type 0} → Answer A → Bool
is_ok (failed status) = false
is_ok (ok a) = true

-- The request of the page with the server's answer.
abbrev pub command_of : Order → Bool → Command
command_of (sets uid role) accepted = change_role uid role accepted
command_of (deletes confirmed uid) accepted = delete_user confirmed uid accepted

kept_by_change :
    (d : Directory) (v r uid role : String) (accepted : Bool)
    → d v ≡ some r
    → (q : String) × (apply_command (change_role uid role accepted) d v ≡ some q)
unfolding apply_command
kept_by_change d v r uid role false h = (r, h)
kept_by_change d v r uid role true h = elim (Bool-cases (str_eq uid v)) [
  | inl same ↦ (role, rw (same, h) refl)
  | inr other ↦ (r, rw other h)
]

kept_by_deletion :
    (d : Directory) (v uid : String) (confirmed accepted : Bool)
    → str_eq uid v ≡ false
    → apply_command (delete_user confirmed uid accepted) d v ≡ d v
unfolding apply_command
kept_by_deletion d v uid false accepted other = refl
kept_by_deletion d v uid true false other = refl
kept_by_deletion d v uid true true other = rw other refl

module _ {A : Type 0} (firebase : Firebase A) (caller : String) where
  abbrev pub served : Order → A → Answer String × A
  served (sets uid role) a = handle_set_role firebase uid (some role) a
  served (deletes true uid) a = handle_delete_user firebase caller uid a
  served (deletes false uid) a = (failed 0, a)

  abbrev pub run_orders : List Order → UserList × A → UserList × A
  run_orders [] (s, a) = (s, a)
  run_orders (o ∷ os) (s, a) =
      let done = served o a in run_orders os (run_command (command_of o (is_ok done.0)) s, done.1)

  module _
      (sets_one : (uid role : String) (a b : A) (v : String)
        → firebase.set_custom_user_claims uid role a ≡ some b
        → firebase.roles b v ≡ apply_command (change_role uid role true) (firebase.roles a) v)
      (deletes_one : (uid : String) (a b : A) (v : String)
        → firebase.delete_account uid a ≡ some b
        → firebase.roles b v ≡ apply_command (delete_user true uid true) (firebase.roles a) v) where
    set-roles :
        (uid role : String) (a : A) (v : String)
        → let done = handle_set_role firebase uid (some role) a in
          firebase.roles done.1 v
          ≡ apply_command (change_role uid role (is_ok done.0)) (firebase.roles a) v
    unfolding handle_set_role account_answer apply_command
    set-roles uid role a v = elim (Bool-cases (not (str_eq uid "") && is_valid_role role)) [
      | inr bad ↦ rw bad refl
      | inl good ↦ rw good (elim (Option-cases (firebase.set_custom_user_claims uid role a)) [
        | inl gone ↦ rw gone refl
        | inr (b, there) ↦ rw there (sets_one uid role a b v there)
      ])
    ]

    delete-roles :
        (uid : String) (a : A) (v : String)
        → let done = handle_delete_user firebase caller uid a in
          firebase.roles done.1 v
          ≡ apply_command (delete_user true uid (is_ok done.0)) (firebase.roles a) v
    unfolding handle_delete_user account_answer apply_command
    delete-roles uid a v = elim (Bool-cases (not (str_eq uid "") && not (str_eq uid caller))) [
      | inr bad ↦ rw bad refl
      | inl good ↦ rw good (elim (Option-cases (firebase.delete_account uid a)) [
        | inl gone ↦ rw gone refl
        | inr (b, there) ↦ rw there (deletes_one uid a b v there)
      ])
    ]

    served-roles :
        (o : Order) (a : A) (v : String)
        → firebase.roles (served o a).1 v
          ≡ apply_command (command_of o (is_ok (served o a).0)) (firebase.roles a) v
    unfolding apply_command
    served-roles (sets uid role) a v = set-roles uid role a v
    served-roles (deletes true uid) a v = delete-roles uid a v
    served-roles (deletes false uid) a v = refl

    run_orders-directory :
        (os : List Order) (s : UserList) (a : A)
        → directory s.users ≡ firebase.roles a
        → directory (run_orders os (s, a)).0.users ≡ firebase.roles (run_orders os (s, a)).1
    run_orders-directory [] s a same = same
    run_orders-directory (o ∷ os) s a same =
        let done = served o a in
        let c = command_of o (is_ok done.0) in
        run_orders-directory os (run_command c s) done.1 (λ i v.
          (run_command-directory c s v
              ∙ ap (λ d. apply_command c d v) same
              ∙ sym (served-roles o a v))
            i)

    abbrev pub HasAccount : A → Type 0
    HasAccount a = (r : String) × (firebase.roles a caller ≡ some r)

    own_deletion_refused :
        (uid : String) (a : A)
        → str_eq uid caller ≡ true
        → (handle_delete_user firebase caller uid a).1 ≡ a
    unfolding handle_delete_user
    own_deletion_refused uid a own = elim (Bool-cases (str_eq uid "")) [
      | inl empty ↦ rw empty refl
      | inr given ↦ rw (given, own) refl
    ]

    served-HasAccount : (o : Order) (a : A) → HasAccount a → HasAccount (served o a).1
    served-HasAccount (sets uid role) a (r, h) =
        let (q, kept) =
          kept_by_change (firebase.roles a) caller r uid role
            (is_ok (handle_set_role firebase uid (some role) a).0) h in
        (q, set-roles uid role a caller ∙ kept)
    served-HasAccount (deletes true uid) a (r, h) = elim (Bool-cases (str_eq uid caller)) [
      | inl own ↦ (r, ap (λ b. firebase.roles b caller) (own_deletion_refused uid a own) ∙ h)
      | inr other ↦ (
        r,
        delete-roles uid a caller
            ∙ kept_by_deletion (firebase.roles a) caller uid true
                (is_ok (handle_delete_user firebase caller uid a).0) other
            ∙ h,
      )
    ]
    served-HasAccount (deletes false uid) a h = h

    run_orders-HasAccount :
        (os : List Order) (s : UserList) (a : A)
        → HasAccount a
        → HasAccount (run_orders os (s, a)).1
    run_orders-HasAccount [] s a h = h
    run_orders-HasAccount (o ∷ os) s a h =
        run_orders-HasAccount os _ (served o a).1 (served-HasAccount o a h)

    -- A call of Firebase that succeeds gives the account its role, or removes it, and leaves the others
    -- as they are. A list shows the accounts with their roles, and an administrator has one: after
    -- any changes and deletions from the page, one after the other, of which the server refuses some
    -- and Firebase fails at some, the list still shows the accounts with their roles, and the
    -- administrator still has one.
    pub listed_users_are_accounts :
        (os : List Order) (s : UserList) (a : A)
        → directory s.users ≡ firebase.roles a
        → HasAccount a
        → (directory (run_orders os (s, a)).0.users ≡ firebase.roles (run_orders os (s, a)).1)
          × HasAccount (run_orders os (s, a)).1
    listed_users_are_accounts os s a same own =
        (run_orders-directory os s a same, run_orders-HasAccount os s a own)
