-- ===== src/GeoExecutor/Arrays/Agreement.antt =====
-- `order` and `sort` on one array.
use open_eo_ru_stac.Prelude.{
  ℕ, ◌+◌, ◌≡◌, refl, sym, ap, ◌∙◌, subst, Bool, true, false, none, some, List, length, map, ◌++◌,
  replicate, Option, ok, IsIn, Distinct, arith,
}
use open_eo_ru_stac.Prelude.Sorting.{
  IsSorted, sort_by-IsIn, IsIn-sort_by, sort_by-IsSorted, Distinct-sort_by, map-sort_by,
}
use open_eo_ru_stac.Json.{Value, null, number, bool, string, array, object, Fields, get_field}
use open_eo_ru_stac.GeoExecutor.Arrays.{
  ArrayOps, items, as_bool, or_default, count_value, arr, valid_from, nodata_from, in_order, placed,
  ordered, order, numbers, sort,
}
use open_eo_ru_stac.GeoExecutor.Arrays.Finite.{
  IsNumberAt, IsOtherAt, HasNumber-IsNumberAt, IsNumberAt-HasNumber, HasNoNumber-IsOtherAt,
  IsOtherAt-HasNoNumber,
}
use open_eo_ru_stac.GeoExecutor.Arrays.Ordering.{
  HasNumber, HasNoNumber, valid_from-HasNumber, HasNumber-valid_from, nodata_from-HasNoNumber,
  HasNoNumber-nodata_from, valid_from-Distinct, nodata_from-Distinct,
}

-- The rest behind the numbers where `nodata` is true, before them where it is false, and dropped where
-- it is no truth value or not given.
abbrev pub laid_out : {A : Type 0} → Option Value → List A → List A → List A
laid_out (some (bool true)) rest numbers_ = numbers_ ++ rest
laid_out (some (bool false)) rest numbers_ = rest ++ numbers_
laid_out _ rest numbers_ = numbers_

module _ {F : Type 0} (ops : ArrayOps F) where
  -- Falling where `asc` is false, else rising.
  abbrev pub comes_before : Option Value → F → F → Bool
  comes_before (some (bool false)) a b = ops.less_equal b a
  comes_before _ a b = ops.less_equal a b

  in_order-eq : (o : Option Value) → in_order ops (or_default true (as_bool o)) ≡ comes_before o
  in_order-eq none = refl
  in_order-eq (some (bool true)) = refl
  in_order-eq (some (bool false)) = refl
  in_order-eq (some null) = refl
  in_order-eq (some (number n)) = refl
  in_order-eq (some (string s)) = refl
  in_order-eq (some (array vs)) = refl
  in_order-eq (some (object fs)) = refl

  placed-eq :
      {A : Type 0} (o : Option Value) (rest numbers_ : List A)
      → placed ops (as_bool o) rest numbers_ ≡ laid_out o rest numbers_
  placed-eq none rest numbers_ = refl
  placed-eq (some (bool true)) rest numbers_ = refl
  placed-eq (some (bool false)) rest numbers_ = refl
  placed-eq (some null) rest numbers_ = refl
  placed-eq (some (number n)) rest numbers_ = refl
  placed-eq (some (string s)) rest numbers_ = refl
  placed-eq (some (array vs)) rest numbers_ = refl
  placed-eq (some (object fs)) rest numbers_ = refl

  -- The positions of the finite numbers in their order, each once, and those of the rest.
  pub record Orders (asc : Option Value) (data_ : List Value) (valid : List (ℕ × F))
      (nodata : List ℕ) : Type 0 where
    pub each : (e : ℕ × F) → IsIn e valid → IsNumberAt ops data_ e.0 e.1
    pub every :
        (i : ℕ) (f : F)
        → IsNumberAt ops data_ i f
        → (e : ℕ × F) × IsIn e valid × (e.0 ≡ i) × (e.1 ≡ f)
    pub once : Distinct (map (λ e. e.0) valid)
    pub sorted : IsSorted (λ a b. comes_before asc a.1 b.1) valid
    pub each_nodata : (i : ℕ) → IsIn i nodata → IsOtherAt ops data_ i
    pub every_nodata : (i : ℕ) → IsOtherAt ops data_ i → IsIn i nodata
    pub once_nodata : Distinct nodata

  -- What `order` and `sort` come to for these arguments.
  pub record Agrees (args : Fields) (data_ : List Value) : Type 0 where
    pub valid : List (ℕ × F)
    pub nodata : List ℕ
    pub orders : Orders (get_field "asc" args) data_ valid nodata
    pub by_order :
        order ops args
        ≡ ok (
            array (
              items (
                map count_value
                  (laid_out (get_field "nodata" args) nodata (map (λ e. e.0) valid)))))
    pub by_sort :
        sort ops args
        ≡ ok (
            array (
              items (
                laid_out
                  (get_field "nodata" args)
                  (replicate (length nodata) null)
                  (numbers ops (map (λ e. e.1) valid)))))

  module _
      (total : (a b : F)
        → ops.is_finite a ≡ true
        → ops.is_finite b ≡ true
        → ops.less_equal a b ≡ false
        → ops.less_equal b a ≡ true)
      (transitive : (a b c : F)
        → ops.is_finite a ≡ true
        → ops.is_finite b ≡ true
        → ops.is_finite c ≡ true
        → ops.less_equal a b ≡ true
        → ops.less_equal b c ≡ true
        → ops.less_equal a c ≡ true) where
    in_order_total :
        (asc : Bool) (a b : F)
        → ops.is_finite a ≡ true
        → ops.is_finite b ≡ true
        → in_order ops asc a b ≡ false
        → in_order ops asc b a ≡ true
    in_order_total true a b p q h = total a b p q h
    in_order_total false a b p q h = total b a q p h

    in_order_trans :
        (asc : Bool) (a b c : F)
        → ops.is_finite a ≡ true
        → ops.is_finite b ≡ true
        → ops.is_finite c ≡ true
        → in_order ops asc a b ≡ true
        → in_order ops asc b c ≡ true
        → in_order ops asc a c ≡ true
    in_order_trans true a b c p q r h k = transitive a b c p q r h k
    in_order_trans false a b c p q r h k = transitive c b a r q p k h

    ordered-Orders :
        (o : Option Value) (data_ : List Value)
        → Orders o data_ (ordered ops (or_default true (as_bool o)) data_) (nodata_from ops 0 data_)
    ordered-Orders o data_ =
        let asc : Bool = or_default true (as_bool o) in
        let entries : List (ℕ × F) = valid_from ops 0 data_ in
        let number_of : (e : ℕ × F) → IsIn e entries → HasNumber ops data_ e.0 e.1 = λ e at.
          let (j, index, h) = valid_from-HasNumber ops 0 data_ e at in
          let same : j ≡ e.0 = omega arith in subst (λ i. HasNumber ops data_ i e.1) same h in
        record {
          each = λ e at.
              HasNumber-IsNumberAt ops data_ e.0 e.1
                (number_of e (sort_by-IsIn (λ a b. in_order ops asc a.1 b.1) e entries at));
          every = λ i f h.
              let (e, found, index, value) =
                HasNumber-valid_from ops 0 i data_ f (IsNumberAt-HasNumber ops data_ i f h) in
              (
                e,
                IsIn-sort_by (λ a b. in_order ops asc a.1 b.1) e entries found,
                omega arith,
                value,
              );
          once =
              Distinct-sort_by (λ a b. in_order ops asc a.1 b.1) (λ e. e.0) entries
                (valid_from-Distinct ops 0 data_);
          sorted =
              subst (λ le. IsSorted (λ a b. le a.1 b.1) (ordered ops asc data_)) (in_order-eq o)
                (sort_by-IsSorted (λ a b. in_order ops asc a.1 b.1) (λ e. ops.is_finite e.1 ≡ true)
                  (λ a b. in_order_total asc a.1 b.1) (λ a b c. in_order_trans asc a.1 b.1 c.1)
                  entries
                  (λ e at.
                    let (n, found, same, fin) =
                      HasNumber-IsNumberAt ops data_ e.0 e.1 (number_of e at) in
                    fin));
          each_nodata = λ i at.
              let (j, index, h) = nodata_from-HasNoNumber ops 0 data_ i at in
              let same : j ≡ i = omega arith in
              HasNoNumber-IsOtherAt ops data_ i (subst (λ i. HasNoNumber ops data_ i) same h);
          every_nodata = λ i h.
              let same : 0 + i ≡ i = omega arith in
              subst (λ j. IsIn j (nodata_from ops 0 data_)) same
                (HasNoNumber-nodata_from ops 0 i data_ (IsOtherAt-HasNoNumber ops data_ i h));
          once_nodata = nodata_from-Distinct ops 0 data_;
        }

    -- Where `partial_cmp` orders the finite numbers: `order` gives the positions of the elements that
    -- are finite numbers, each once and in the order of the numbers, falling where `asc` is false and
    -- else rising, and those of the other elements behind them where `nodata` is true, before them
    -- where it is false, and else not at all; `sort` gives the numbers in that same order, and a null
    -- for each of the others in the same place.
    pub order-sort-Agrees :
        (args : Fields) (data_ : List Value) → arr args "data" ≡ ok data_ → Agrees args data_
    unfolding order sort
    order-sort-Agrees args data_ given =
        let asc : Bool = or_default true (as_bool (get_field "asc" args)) in
        record {
          valid = ordered ops asc data_;
          nodata = nodata_from ops 0 data_;
          orders = ordered-Orders (get_field "asc" args) data_;
          by_order = rw given (
              ap (λ is. ok (array (items (map count_value is))))
                (placed-eq (get_field "nodata" args) (nodata_from ops 0 data_)
                  (map (λ e. e.0) (ordered ops asc data_))));
          by_sort = rw given (
              ap (λ vs. ok (array (items vs)))
                (ap
                    (λ fs.
                      placed ops (as_bool (get_field "nodata" args))
                        (replicate (length (nodata_from ops 0 data_)) null) (numbers ops fs))
                    (sym (map-sort_by (λ e. e.1) (in_order ops asc) (valid_from ops 0 data_)))
                  ∙ placed-eq (get_field "nodata" args)
                      (replicate (length (nodata_from ops 0 data_)) null)
                      (numbers ops (map (λ e. e.1) (ordered ops asc data_)))));
        }
