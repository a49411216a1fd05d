-- ===== src/Migration/Reversal.antt =====
-- A downgrade takes back what an upgrade has created.
use text.Mathlib.Text.{◌==◌ as str_eq}
use text.Mathlib.TextEquality.{eq_iff}
use sd_online_auction_backen.Common.{
  String, ◌≡◌, refl, ap, ◌∙◌, Bool, true, false, ◌&&◌, ◌||◌, not, some, List, [], ◌∷◌, ◌++◌, arith,
  any, filter, All,
}
use sd_online_auction_backen.Migration.{
  Table, all_known, is_named, refers_into, create_table, drop_table, then_do, upgrade, downgrade,
  user_table, auction_table, bid_table, proxy_bid_table,
}

any-append :
    {A : Type 0} (test : A → Bool) (xs ys : List A)
    → any test (xs ++ ys) ≡ (any test xs || any test ys)
any-append test [] ys = refl
any-append test (x ∷ xs) ys = ground (arith, any-append test xs ys)

any-left :
    {A : Type 0} (test : A → Bool) (xs ys : List A)
    → any test xs ≡ true
    → any test (xs ++ ys) ≡ true
any-left test xs ys h = any-append test xs ys ∙ rw h refl

any-right :
    {A : Type 0} (test : A → Bool) (xs ys : List A)
    → any test ys ≡ true
    → any test (xs ++ ys) ≡ true
any-right test xs ys h = any-append test xs ys ∙ rw h (ground arith)

any-and :
    {A : Type 0} (t u : A → Bool) (xs : List A)
    → any u xs ≡ false
    → any (λ x. t x && u x) xs ≡ false
any-and t u [] h = refl
any-and t u (x ∷ xs) h = ground (arith, h, any-and t u xs)

same_name : (name : String) → str_eq name name ≡ true
same_name name = (eq_iff name name).1 refl

filter-last :
    (t : Table) (tables : List Table)
    → any (is_named t.name) tables ≡ false
    → filter (λ x. not (is_named t.name x)) (tables ++ t ∷ []) ≡ tables
filter-last t [] h = rw (same_name t.name) refl
filter-last t (x ∷ tables) h = ground (arith, h, filter-last t tables)

-- no table has the name or refers to it
pub record Free (name : String) (tables : List Table) : Type 0 where
  pub unnamed : any (is_named name) tables ≡ false
  pub unreferred : any (refers_into name) tables ≡ false

Free-append :
    (name : String) (tables : List Table) (t : Table)
    → Free name tables
    → is_named name t ≡ false
    → refers_into name t ≡ false
    → Free name (tables ++ t ∷ [])
Free-append name tables t x other apart = record {
  unnamed = any-append (is_named name) tables (t ∷ []) ∙ rw (x.unnamed, other) refl;
  unreferred = any-append (refers_into name) tables (t ∷ []) ∙ rw (x.unreferred, apart) refl;
}

created :
    (t : Table) (tables : List Table)
    → Free t.name tables
    → all_known t.foreign_keys (tables ++ t ∷ []) ≡ true
    → create_table t tables ≡ some (tables ++ t ∷ [])
unfolding create_table
created t tables x known = rw (x.unnamed, known) refl

-- dropping the last table that has been created
dropped :
    (t : Table) (tables : List Table)
    → Free t.name tables
    → drop_table t.name (tables ++ t ∷ []) ≡ some tables
unfolding drop_table
dropped t tables x =
    let there = any-append (is_named t.name) tables (t ∷ []) in
    let others =
      any-append (λ u. not (is_named t.name u) && refers_into t.name u) tables (t ∷ []) in
    let none_of_them =
      any-and (λ u. not (is_named t.name u)) (refers_into t.name) tables x.unreferred in
    ground (arith, there, others, none_of_them, same_name t.name, filter-last t tables x.unnamed)

upgraded :
    (tables : List Table)
    → All (λ name. Free name tables) ("user" ∷ "auction" ∷ "bid" ∷ "proxy_bid" ∷ [])
    → (created_tables : List Table) × (upgrade tables ≡ some created_tables)
      × (downgrade created_tables ≡ some tables)
unfolding upgrade downgrade
upgraded tables (user, (auction, (bid, (proxy, _)))) =
    let one = tables ++ user_table ∷ [] in
    let two = one ++ auction_table ∷ [] in
    let three = two ++ bid_table ∷ [] in
    let auction1 = Free-append "auction" tables user_table auction refl refl in
    let bid1 = Free-append "bid" tables user_table bid refl refl in
    let proxy1 = Free-append "proxy_bid" tables user_table proxy refl refl in
    let bid2 = Free-append "bid" one auction_table bid1 refl refl in
    let proxy2 = Free-append "proxy_bid" one auction_table proxy1 refl refl in
    let proxy3 = Free-append "proxy_bid" two bid_table proxy2 refl refl in
    let users = any-right (is_named "user") tables (user_table ∷ []) refl in
    let users2 = any-left (is_named "user") one (auction_table ∷ []) users in
    let users3 = any-left (is_named "user") two (bid_table ∷ []) users2 in
    let auctions = any-right (is_named "auction") one (auction_table ∷ []) refl in
    let auctions3 = any-left (is_named "auction") two (bid_table ∷ []) auctions in
    let up_auction = created auction_table one auction1 (rw users2 refl) in
    let up_bid =
      created bid_table two bid2
        (rw (any-left (is_named "auction") two (bid_table ∷ []) auctions, users3) refl) in
    let up_proxy = created proxy_bid_table three proxy3 (
      rw
        (
          any-left (is_named "auction") three (proxy_bid_table ∷ []) auctions3,
          any-left (is_named "user") three (proxy_bid_table ∷ []) users3,
        )
        refl) in
    (
      three ++ proxy_bid_table ∷ [],
      rw (created user_table tables user refl, up_auction, up_bid) up_proxy,
      rw
          (
            dropped proxy_bid_table three proxy3,
            dropped bid_table two bid2,
            dropped auction_table one auction1,
          )
          (dropped user_table tables user),
    )

-- An upgrade of a schema in which no table has the name of one of the four or refers to one
-- succeeds, and a downgrade after it drops the four tables in an order that the foreign keys allow
-- and gives the schema back.
pub downgrade-upgrade :
    (tables : List Table)
    → All (λ name. Free name tables) ("user" ∷ "auction" ∷ "bid" ∷ "proxy_bid" ∷ [])
    → then_do (upgrade tables) downgrade ≡ some tables
downgrade-upgrade tables free =
    let (created_tables, up, down) = upgraded tables free in ap (λ o. then_do o downgrade) up ∙ down
