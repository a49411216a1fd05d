-- ===== src/Search/Cursor.antt =====
-- The cursor of a search, encoded and decoded, and the order of its keys.
use sd_online_auction_backen.Common.{◌≡◌, ◌≢◌, refl, String, true, false, some, arith}
use sd_online_auction_backen.Platform.{Platform}
use sd_online_auction_backen.Paging.Order.{IsStrict}
use sd_online_auction_backen.Search.{Engine, Key, key_lt, encode_cursor, decode_cursor}

pair_eq : {a b : Key} → a.0 ≡ b.0 → a.1 ≡ b.1 → a ≡ b
pair_eq u v = λ i. (u i, v i)

key_lt_total : (a b : Key) → a ≢ b → key_lt a b ≡ false → key_lt b a ≡ true
unfolding key_lt
key_lt_total a b h k =
    let apart : a.0 ≡ b.0 → a.1 ≡ b.1 → ⊥ = λ u v. h (pair_eq u v) in ground (arith, apart)

pub key_lt-IsStrict : IsStrict key_lt
unfolding key_lt
key_lt-IsStrict = record {
  trans = λ a b c h k. ground arith;
  irrefl = λ a. ground arith;
  weak = λ a b c h k. ground arith;
  total = key_lt_total;
}

module _ (p : Platform) (e : Engine p) where
  -- A cursor that is encoded from two texts decodes to them.
  pub decode_cursor-encode_cursor :
      (created_at auction_id : String)
      → decode_cursor p e (encode_cursor p e created_at auction_id)
        ≡ some (e.text created_at, e.text auction_id)
  unfolding decode_cursor encode_cursor
  decode_cursor-encode_cursor created_at auction_id =
      let (first, second) = e.index_pair created_at auction_id in
      rw
        (
          e.b64decode_b64encode (e.dumps (e.pair created_at auction_id)),
          e.loads_dumps created_at auction_id,
          e.len_pair created_at auction_id,
          first,
          second,
        )
        refl
