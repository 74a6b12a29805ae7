-- ===== src/Admins/Laws.antt =====
-- internal/cache/admins.go: what the administrator cache answers after each operation.
use tg.Base.{
  ℕ, ◌+◌, ◌≤◌, ◌≡◌, refl, ◌∙◌, ap, sym, inl, inr, List, [], ◌∷◌, ◌++◌, Option, none, some, Bool,
  true, false, Text, bytes, ℤ, pos, if◌then◌else◌, ◌==◌, int_eq, int_beq, int_beq_iff, text_eq,
  text_beq_iff, format_int-injective, Result, ok, err, map, drop, arith, contains, Option-cases,
  Bool-cases, ==_refl,
}
use mathlib.Core.Option
use tg.Ttl
use tg.Ttl.Reads.{peek, get-peek, get-value, ttl-get, peek-set, peek-delete, peek-clear}
use tg.Admins.Defs.{
  ChatMember, Members, AdminCache, AdminError, not_administrator, sender_id, is_administrator,
  ids_of, admin_cache_key, fetch_admins, get_admins, find_admin, get_user_admin, get_rights,
  rights_of, clear_admin_cache, updated, update_admin_cache,
}
use tg.Admins.Lookup.{HasUniqueIds, or_same, find_admin-updated}

append_injective : (s t u : Text) → s ++ t ≡ s ++ u → t ≡ u
append_injective [] t u h = h
append_injective (a ∷ s) t u h = append_injective s t u (ap (drop 1) h)

-- Two chats never share an entry of the cache.
pub admin_cache_key-injective : (a b : ℤ) → admin_cache_key a ≡ admin_cache_key b → a ≡ b
unfolding admin_cache_key
admin_cache_key-injective a b h =
    format_int-injective a b (append_injective (bytes "admins:") _ _ h)

pub admin_cache_key-== : (a b : ℤ) → (admin_cache_key a == admin_cache_key b) ≡ (a == b)
admin_cache_key-== a b = elim (Bool-cases (int_beq a b)) [
  | inl e ↦
      let same : a ≡ b = (int_beq_iff a b).0 e in
      (text_beq_iff (admin_cache_key a) (admin_cache_key b)).1 (ap admin_cache_key same) ∙ sym e
  | inr e ↦ elim (Bool-cases (admin_cache_key a == admin_cache_key b)) [
    | inl f ↦ absurd (
        ground (
          arith,
          (int_beq_iff a b).1 (
              admin_cache_key-injective a b
                ((text_beq_iff (admin_cache_key a) (admin_cache_key b)).0 f)),
        ))
    | inr f ↦ f ∙ sym e
  ]
]

-- The administrators that a Get at a time sees.
abbrev pub cached : ℕ → ℤ → AdminCache → Option Members
cached now id c = peek now (admin_cache_key id) c

-- ClearAdminCache forgets the administrators of the chat, or of all chats for chat 0, and of no
-- other chat.
pub cached-clear_admin_cache :
    (now : ℕ) (id j : ℤ) (c : AdminCache)
    → cached now j (clear_admin_cache id c)
      ≡ (if id == pos 0 then none else if id == j then none else cached now j c)
unfolding clear_admin_cache
cached-clear_admin_cache now id j c = elim (Bool-cases (id == pos 0)) [
  | inl e ↦ rw (e, clear_admin_cache) (peek-clear now (admin_cache_key j) c)
  | inr e ↦
      rw (e, clear_admin_cache)
        (peek-delete now (admin_cache_key id) (admin_cache_key j) c
          ∙ ap (λ (b : Bool). if b then none else cached now j c) (admin_cache_key-== id j))
]

cached-update_admin_cache :
    (now later : ℕ) (id j uid : ℤ) (m : ChatMember) (c : AdminCache)
    → sender_id m.member_id ≡ some uid
    → now ≤ later
    → later ≤ now + c.ttl
    → cached later id c ≡ cached now id c
    → cached later j (update_admin_cache now id (some m) c) ≡ (
        if id == j
        then Option.map (λ admins. or_same admins (updated uid m admins)) (cached now id c)
        else cached later j c)
unfolding update_admin_cache
cached-update_admin_cache now later id j uid m c s lo hi still =
    let k = admin_cache_key id in
    let q = admin_cache_key j in
    let c' = (Ttl.get now now k c).0 in
    elim (Option-cases (cached now id c)) [
      | inl e ↦
          ground (arith, get-value now now k c, get-peek now now later k q c lo, int_beq_iff id j)
      | inr (admins, e) ↦ elim (Option-cases (updated uid m admins)) [
        | inl f ↦
            ground (arith, get-value now now k c, get-peek now now later k q c lo, int_beq_iff id j)
        | inr (new, f) ↦ ground (
          arith,
          get-value now now k c,
          get-peek now now later k q c lo,
          ttl-get now now k c,
          peek-set now later k q new c',
          admin_cache_key-== id j,
        )
      ]
    ]

get_admins-cached :
    (now : ℕ) (answer : Result Text (List ChatMember)) (id : ℤ) (admins : Members) (c : AdminCache)
    → cached now id c ≡ some admins
    → (get_admins now answer id false c).1 ≡ ok admins
unfolding get_admins
get_admins-cached now answer id admins c h =
    ground (arith, get-value now now (admin_cache_key id) c)

-- What GetUserAdmin answers, when the search through the list gave this.
abbrev pub answer_of : ℤ → ℤ → Option ChatMember → Result AdminError ChatMember
answer_of id uid none = err (not_administrator uid id)
answer_of id uid (some m) = ok m

get_user_admin-cached :
    (now : ℕ) (answer : Result Text (List ChatMember)) (id uid : ℤ) (admins : Members)
    (c : AdminCache)
    → cached now id c ≡ some admins
    → (get_user_admin now answer id uid false c).1 ≡ answer_of id uid (find_admin uid admins)
unfolding get_user_admin
get_user_admin-cached now answer id uid admins c h =
    ground (arith, get_admins-cached now answer id admins c h)

-- While the list of a chat is cached, at an update and at a look that comes within the time to
-- live of the update, and names nobody twice, an update takes effect at once, whatever the server
-- would say: GetUserAdmin finds a promoted member with the new record, does not find a member who
-- is no administrator any more, and answers of everybody else as the old list says.
pub get_user_admin-update_admin_cache :
    (now later : ℕ) (answer : Result Text (List ChatMember)) (id uid j : ℤ) (m : ChatMember)
    (admins : Members) (c : AdminCache)
    → sender_id m.member_id ≡ some uid
    → HasUniqueIds admins
    → now ≤ later
    → later ≤ now + c.ttl
    → cached now id c ≡ some admins
    → cached later id c ≡ some admins
    → (get_user_admin later answer id j false (update_admin_cache now id (some m) c)).1
      ≡ answer_of id j (
          if uid == j
          then (if is_administrator (some m) then some m else none)
          else find_admin j admins)
get_user_admin-update_admin_cache now later answer id uid j m admins c s u lo hi e f =
    let after = update_admin_cache now id (some m) c in
    let new = or_same admins (updated uid m admins) in
    let seen : cached later id after ≡ some new =
      ground (
        arith,
        cached-update_admin_cache now later id id uid m c s lo hi (f ∙ sym e),
        ==_refl id,
      ) in
    get_user_admin-cached later answer id j new after seen
    ∙ ap (answer_of id j) (find_admin-updated uid j m admins s u)

-- Within the time to live of a reload, the cache holds the list of the server for the chat, and
-- for the other chats what it held; if the server fails, nothing that was cached is lost.
pub cached-get_admins_forced :
    (now later : ℕ) (answer : Result Text (List ChatMember)) (id j : ℤ) (c : AdminCache)
    → later ≤ now + c.ttl
    → cached later j (get_admins now answer id true c).0 ≡ elim answer [
      | err e ↦ cached later j c
      | ok members ↦ if id == j then some (map some members) else cached later j c
    ]
unfolding get_admins fetch_admins
cached-get_admins_forced now later (err e) id j c h = refl
cached-get_admins_forced now later (ok members) id j c h = ground (
  arith,
  peek-set now later (admin_cache_key id) (admin_cache_key j) (map some members) c,
  admin_cache_key-== id j,
)

-- While the list of a chat is cached, GetRights answers only for somebody in it: with the rights
-- of the record for an administrator, with every right but anonymity for the creator.
pub get_rights-find_admin :
    (now : ℕ) (answer : Result Text (List ChatMember)) (id uid : ℤ) (admins : Members)
    (c : AdminCache)
    → cached now id c ≡ some admins
    → (get_rights now answer id uid false c).1 ≡ elim (find_admin uid admins) [
      | none ↦ err (not_administrator uid id)
      | some m ↦ rights_of id uid m.status
    ]
unfolding get_rights
get_rights-find_admin now answer id uid admins c h =
    ground (arith, get_user_admin-cached now answer id uid admins c h)

pub is_found : Option ChatMember → Bool
is_found none = false
is_found (some m) = true

-- The ids that GetChatAdminIDs makes of a list contain an id exactly if the search of
-- GetUserAdmin finds it in that list.
pub contains-ids_of :
    (uid : ℤ) (admins : Members) → contains (ids_of admins) uid ≡ is_found (find_admin uid admins)
unfolding ids_of find_admin is_found
contains-ids_of uid [] = refl
contains-ids_of uid (x ∷ xs) = ground (arith, contains-ids_of uid xs)
