-- ===== src/Users/Directory.antt =====
-- What the list of users shows, as a map from a user to a role.
use gbc_smart_management.Base.{
  Bool, true, false, List, [], ◌∷◌, Option, none, some, String, str_eq, eq_iff, if◌then◌else◌,
  filter_by, text_or, ◌≡◌, refl, arith, ◌∙◌, ap,
}
use gbc_smart_management.Users.{
  ListedUser, UserList, UserCall, start_role_change, start_delete, with_role, set_role_in,
  remove_user, call_answered, is_updating,
}

-- The abstract view: the role of each user, the empty text for none, and nothing for no user.
abbrev pub Directory : Type 0
Directory = String → Option String

unfoldable pub directory : List ListedUser → Directory
directory [] v = none
directory (u ∷ us) v =
    let rest = directory us v in if str_eq u.uid v then some (text_or u.role "") else rest

-- One request from its start to its answer: what is asked, whether a deletion is confirmed, and
-- whether the server accepts.
pub data Command : Type 0 where
  change_role : String → String → Bool → Command
  delete_user : Bool → String → Bool → Command

abbrev pub delete_answered : Bool → UserList × Option UserCall → UserList
delete_answered ok (s, none) = s
delete_answered ok (s, some c) = call_answered ok c s

unfoldable pub run_command : Command → UserList → UserList
run_command (change_role uid role ok) s =
    let begun = start_role_change uid role s in call_answered ok (begun.1) (begun.0)
run_command (delete_user confirmed uid ok) s = delete_answered ok (start_delete confirmed uid s)

unfoldable pub run_commands : List Command → UserList → UserList
run_commands [] s = s
run_commands (c ∷ cs) s = run_commands cs (run_command c s)

-- What the same request means for the map: nothing unless the server accepts it.
unfoldable pub apply_command : Command → Directory → Directory
apply_command (change_role uid role ok) d v =
    if ok
    then (if str_eq uid v then (elim (d v) [ none ↦ none | some r ↦ some role ]) else d v)
    else d v
apply_command (delete_user confirmed uid ok) d v =
    if confirmed then (if ok then (if str_eq uid v then none else d v) else d v) else d v

unfoldable pub apply_commands : List Command → Directory → Directory
apply_commands [] d = d
apply_commands (c ∷ cs) d = apply_commands cs (apply_command c d)

text_or_empty : (r : String) → text_or (some r) "" ≡ r
unfolding text_or
text_or_empty r = ground (arith, eq_iff r "")

set_role_in-directory :
    (uid role v : String) (us : List ListedUser)
    → directory (set_role_in uid role us) v
      ≡ apply_command (change_role uid role true) (directory us) v
unfolding set_role_in with_role directory apply_command
set_role_in-directory uid role v [] = ground arith
set_role_in-directory uid role v (u ∷ us) = ground (
  arith,
  set_role_in-directory uid role v us,
  eq_iff u.uid uid,
  eq_iff u.uid v,
  eq_iff uid v,
  text_or_empty role,
)

remove_user-directory :
    (uid v : String) (us : List ListedUser)
    → directory (remove_user uid us) v ≡ apply_command (delete_user true uid true) (directory us) v
unfolding remove_user filter_by directory apply_command
remove_user-directory uid v [] = ground arith
remove_user-directory uid v (u ∷ us) =
    ground (arith, remove_user-directory uid v us, eq_iff u.uid uid, eq_iff u.uid v, eq_iff uid v)

pub run_command-directory :
    (c : Command) (s : UserList) (v : String)
    → directory (run_command c s).users v ≡ apply_command c (directory s.users) v
unfolding run_command start_role_change start_delete call_answered apply_command
run_command-directory (change_role uid role true) s v = set_role_in-directory uid role v s.users
run_command-directory (change_role uid role false) s v = refl
run_command-directory (delete_user true uid true) s v = remove_user-directory uid v s.users
run_command-directory (delete_user true uid false) s v = refl
run_command-directory (delete_user false uid ok) s v = refl

-- Requests that are made one after the other, each answered before the next begins, change what the
-- list shows, as a map from a user to a role, as they change the map itself: an accepted role replaces
-- the user's, an accepted deletion removes the user, and a request that is refused or not confirmed
-- changes nothing.
pub run_commands-directory :
    (cs : List Command) (s : UserList)
    → directory (run_commands cs s).users ≡ apply_commands cs (directory s.users)
unfolding run_commands apply_commands
run_commands-directory [] s = refl
run_commands-directory (c ∷ cs) s =
    run_commands-directory cs (run_command c s)
    ∙ ap (apply_commands cs) ((λ i v. run_command-directory c s v i))

-- While the change of a role waits for the server, a deletion of another user can be asked for, and is
-- answered first. The answer to the change then brings the deleted user back, with the role the user had.
pub overlapping_change_revives :
    (s : UserList) (w role v : String)
    → str_eq w v ≡ false
    → let change = start_role_change w role s in
      let delete = start_delete true v (change.0) in
      let after_delete = delete_answered true delete in
      let after_change = call_answered true (change.1) after_delete in
      (is_updating (change.0) v ≡ false)
      × (directory after_delete.users v ≡ none)
      × (directory after_change.users v ≡ directory s.users v)
unfolding start_role_change start_delete call_answered is_updating apply_command
overlapping_change_revives s w role v other = (
  other,
  remove_user-directory v v s.users ∙ ground (arith, eq_iff v v),
  set_role_in-directory w role v s.users ∙ rw other (ground arith),
)
