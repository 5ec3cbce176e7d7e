-- ===== src/ClientIndex/Built.antt =====
-- What build of web/src/lib/client-index.ts makes is an index that the filters read right.
use tableverse.Prelude.{
  ℕ, suc, ◌+◌, ◌≡◌, refl, sym, ap, ◌∙◌, List, [], ◌∷◌, Text, text_key, ◌≟◌, map, length, set,
  replicate, length-set, length-replicate, inl, inr, Bool-cases, Option-cases,
}
use tableverse.Prelude.Dict
use tableverse.ClientIndex.{ColData, strings, Numbers, ClientIndex, rows_or_none}
use tableverse.ClientIndex.Rowwise.{IsIndexed, IsOrder, col_length}
use tableverse.ClientIndex.Build.{
  ArrowTable, build_sorted_indices_str, write_all, number_column, text_column, build_column,
  build_columns, build, typed, number_cell, text_cell, is_numeric_type_str,
}
use tableverse.ClientIndex.Order.{build_sorted_indices_str-IsOrder}

length-write_all :
    {A : Type 0} (xs : List A) (off : ℕ) (vs : List A) → length (write_all xs off vs) ≡ length xs
unfolding write_all
length-write_all xs off [] = refl
length-write_all xs off (v ∷ vs) =
    length-write_all (set xs off v) (suc off) vs ∙ length-set xs off v

module _ {N : Type 0} where
  put_column : ClientIndex N → Text → ColData N → List ℕ → ClientIndex N
  put_column index name d rows = record index {
    cols = Dict.set name d index.cols;
    sorted_idx = Dict.set name rows index.sorted_idx;
  }

  put_column-IsIndexed :
      (index : ClientIndex N) (name : Text) (d : ColData N) (rows : List ℕ)
      → IsIndexed index
      → col_length d ≡ index.total_rows
      → ((xs : List Text) → d ≡ strings xs → IsOrder xs rows index.total_rows)
      → IsIndexed (put_column index name d rows)
  unfolding put_column rows_or_none
  put_column-IsIndexed index name d rows h size order =
      let put_cols = λ (c : Text) (here : c ≡ name).
        ap (λ a. Dict.get a (Dict.set name d index.cols)) here
        ∙ Dict.get-set_self name d index.cols in
      record {
        lengths = λ c e at. elim (c ≟ name) [
          | yes here ↦
              let same = sym (put_cols c here) ∙ at in let is : d ≡ e = cc in rw (sym is) size
          | no other ↦ h.lengths c e (sym (Dict.get-set_ne c name d index.cols other) ∙ at)
        ];
        orders = λ c xs at. elim (c ≟ name) [
          | yes here ↦
              let same = sym (put_cols c here) ∙ at in
              rw
                (
                  ap (λ a. Dict.get a (Dict.set name rows index.sorted_idx)) here,
                  Dict.get-set_self name rows index.sorted_idx,
                )
                (order xs (cc))
          | no other ↦
              rw (Dict.get-set_ne c name rows index.sorted_idx other)
                (h.orders c xs (sym (Dict.get-set_ne c name d index.cols other) ∙ at))
        ];
      }

built-IsOrder :
    {N : Type 0} {total : ℕ} (ys xs : List Text)
    → ◌≡◌ {A = ColData N} (strings ys) (strings xs)
    → length ys ≡ total
    → IsOrder xs (build_sorted_indices_str ys) total
built-IsOrder ys xs e size =
    let same : ys ≡ xs = cc in rw (sym same, sym size) (build_sorted_indices_str-IsOrder ys)

module _ {N V : Type 0} (to_lower : Text → Text) (to_number : V → N) (to_text : V → Text)
    (nan zero_number : N) where
  length-number_column :
      (tables : List (ArrowTable V)) (name : Text) (xs : List N) (off : ℕ)
      → length (number_column to_lower to_number to_text nan zero_number name xs off tables)
        ≡ length xs
  unfolding number_column
  length-number_column [] name xs off = refl
  length-number_column (t ∷ tables) name xs off = elim (Option-cases (Dict.get name t.children)) [
    | inl out ↦ rw (number_column, out) (length-number_column tables name xs (off + t.num_rows))
    | inr (col, here) ↦
        rw (number_column, here)
          (length-number_column tables name
              (write_all xs off (map (number_cell to_lower to_number to_text nan zero_number) col))
              (off + length col)
            ∙ length-write_all xs off
                (map (number_cell to_lower to_number to_text nan zero_number) col))
  ]

  length-text_column :
      (tables : List (ArrowTable V)) (name : Text) (xs : List Text) (off : ℕ)
      → length (text_column to_lower to_number to_text nan zero_number name xs off tables)
        ≡ length xs
  unfolding text_column
  length-text_column [] name xs off = refl
  length-text_column (t ∷ tables) name xs off = elim (Option-cases (Dict.get name t.children)) [
    | inl out ↦
        rw (text_column, out)
          (length-text_column tables name (write_all xs off (replicate t.num_rows []))
              (off + t.num_rows)
            ∙ length-write_all xs off (replicate t.num_rows []))
    | inr (col, here) ↦
        rw (text_column, here)
          (length-text_column tables name
              (write_all xs off (map (text_cell to_lower to_number to_text nan zero_number) col))
              (off + length col)
            ∙ length-write_all xs off
                (map (text_cell to_lower to_number to_text nan zero_number) col))
  ]

  module _ (numbers : Numbers N) where
    build_column-IsIndexed :
        (tables : List (ArrowTable V)) (name type_str : Text) (index : ClientIndex N)
        → IsIndexed index
        → IsIndexed (
            build_column to_lower to_number to_text nan zero_number numbers tables
              (name, type_str)
              index)
    unfolding build_column put_column col_length
    build_column-IsIndexed tables name type_str index h =
        elim (Bool-cases
          (is_numeric_type_str to_lower to_number to_text nan zero_number type_str)) [
            | inl numeric ↦
                rw (build_column, numeric)
                  (put_column-IsIndexed index name _ _ h
                    (length-number_column tables name (replicate index.total_rows zero_number) 0
                      ∙ length-replicate index.total_rows zero_number)
                    (λ xs e. absurd (cc)))
            | inr textual ↦
                let size =
                  length-text_column tables name (replicate index.total_rows []) 0
                  ∙ length-replicate index.total_rows [] in
                rw (build_column, textual)
                  (put_column-IsIndexed index name _ _ h size (λ xs e. built-IsOrder _ xs e size))
          ]

    build_columns-IsIndexed :
        (tables : List (ArrowTable V)) (fields : List (Text × Text)) (index : ClientIndex N)
        → IsIndexed index
        → IsIndexed
            (build_columns to_lower to_number to_text nan zero_number numbers tables fields index)
    unfolding build_columns
    build_columns-IsIndexed tables [] index h = h
    build_columns-IsIndexed tables ((name, type_str) ∷ fields) index h =
        build_columns-IsIndexed tables fields _
          (build_column-IsIndexed tables name type_str index h)

    -- The index that build makes, of any tables, has complete columns and sorted orders.
    pub build-IsIndexed :
        (tables : List (ArrowTable V))
        → IsIndexed (build to_lower to_number to_text nan zero_number numbers tables)
    unfolding build Dict.get
    build-IsIndexed [] = record { lengths = λ c d at. cc; orders = λ c xs at. cc }
    build-IsIndexed (first ∷ tables) =
        build_columns-IsIndexed (first ∷ tables) (typed first.fields first.fields) _
          (record { lengths = λ c d at. cc; orders = λ c xs at. cc })
