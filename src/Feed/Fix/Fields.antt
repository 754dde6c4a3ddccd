-- ===== src/Feed/Fix/Fields.antt =====
-- The fields that fix_serializer.cpp writes for an event are fields that a reader can take apart.
use hft_orderbook_engine.Base.{ℕ, ◌≡◌, refl, false, [], ◌∷◌, has, arith, add64}
use hft_orderbook_engine.Base.Int.{ℤ}
use hft_orderbook_engine.Core.{Trade}
use hft_orderbook_engine.Transport.{
  EventType, trade, order_accepted, order_cancelled, order_rejected, order_filled,
  order_partial_fill, order_modified, OrderEventData,
}
use hft_orderbook_engine.Feed.{Bytes}
use hft_orderbook_engine.Feed.Decimal.{print, has-print}
use hft_orderbook_engine.Feed.Price.{format_price, has-format_price}
use hft_orderbook_engine.Feed.Fix.{soh}
use hft_orderbook_engine.Feed.Fix.Serializer.{
  headed, trade_fields, order_fields, to_fix_side, to_fix_exec_type, to_fix_ord_status,
}
use hft_orderbook_engine.Feed.Fix.Tags.{AreFields}

has-exec_type : (t : EventType) → has soh (to_fix_exec_type t ∷ []) ≡ false
unfolding to_fix_exec_type
has-exec_type trade = refl
has-exec_type order_accepted = refl
has-exec_type order_cancelled = refl
has-exec_type order_rejected = refl
has-exec_type order_filled = refl
has-exec_type order_partial_fill = refl
has-exec_type order_modified = refl

has-ord_status : (t : EventType) → has soh (to_fix_ord_status t ∷ []) ≡ false
unfolding to_fix_ord_status
has-ord_status trade = refl
has-ord_status order_accepted = refl
has-ord_status order_cancelled = refl
has-ord_status order_rejected = refl
has-ord_status order_filled = refl
has-ord_status order_partial_fill = refl
has-ord_status order_modified = refl

free-print : (n : ℕ) → has soh (print n) ≡ false
free-print n = has-print soh n refl

free-price : (p : ℤ) → has soh (format_price p) ≡ false
free-price p = has-format_price soh refl refl p refl

module _ (symbol sender target : Bytes) (free_symbol : has soh symbol ≡ false)
    (free_sender : has soh sender ≡ false) (free_target : has soh target ≡ false) where
  pub order-AreFields :
      (type : EventType) (n : ℕ) (e : OrderEventData)
      → AreFields soh (headed sender target (order_fields type n e symbol))
  unfolding order_fields
  order-AreFields type n e = (
    omega arith,
    refl,
    (λ rest. refl),
    (
      omega arith,
      free_sender,
      (λ rest. refl),
      (
        omega arith,
        free_target,
        (λ rest. refl),
        (
          omega arith,
          free-print e.order_id,
          (λ rest. refl),
          (
            omega arith,
            free-print e.order_id,
            (λ rest. refl),
            (
              omega arith,
              free-print n,
              (λ rest. refl),
              (
                omega arith,
                has-exec_type type,
                (λ rest. refl),
                (
                  omega arith,
                  has-ord_status type,
                  (λ rest. refl),
                  (
                    omega arith,
                    free_symbol,
                    (λ rest. refl),
                    (
                      omega arith,
                      refl,
                      (λ rest. refl),
                      (
                        omega arith,
                        free-price e.price,
                        (λ rest. refl),
                        (
                          omega arith,
                          free-print (add64 e.filled_quantity e.remaining_quantity),
                          (λ rest. refl),
                          (
                            omega arith,
                            free-print e.filled_quantity,
                            (λ rest. refl),
                            (
                              omega arith,
                              free-print e.remaining_quantity,
                              (λ rest. refl),
                              (omega arith, free-print e.timestamp, (λ rest. refl), tt),
                            ),
                          ),
                        ),
                      ),
                    ),
                  ),
                ),
              ),
            ),
          ),
        ),
      ),
    ),
  )

  pub trade-AreFields :
      (t : Trade) → AreFields soh (headed sender target (trade_fields trade t symbol))
  unfolding trade_fields to_fix_side
  trade-AreFields t = (
    omega arith,
    refl,
    (λ rest. refl),
    (
      omega arith,
      free_sender,
      (λ rest. refl),
      (
        omega arith,
        free_target,
        (λ rest. refl),
        (
          omega arith,
          free-print t.buy_order_id,
          (λ rest. refl),
          (
            omega arith,
            free-print t.sell_order_id,
            (λ rest. refl),
            (
              omega arith,
              free-print t.trade_id,
              (λ rest. refl),
              (
                omega arith,
                has-exec_type trade,
                (λ rest. refl),
                (
                  omega arith,
                  has-ord_status trade,
                  (λ rest. refl),
                  (
                    omega arith,
                    free_symbol,
                    (λ rest. refl),
                    (
                      omega arith,
                      refl,
                      (λ rest. refl),
                      (
                        omega arith,
                        free-price t.price,
                        (λ rest. refl),
                        (
                          omega arith,
                          free-print t.quantity,
                          (λ rest. refl),
                          (
                            omega arith,
                            free-price t.price,
                            (λ rest. refl),
                            (
                              omega arith,
                              free-print t.quantity,
                              (λ rest. refl),
                              (
                                omega arith,
                                refl,
                                (λ rest. refl),
                                (omega arith, free-print t.timestamp, (λ rest. refl), tt),
                              ),
                            ),
                          ),
                        ),
                      ),
                    ),
                  ),
                ),
              ),
            ),
          ),
        ),
      ),
    ),
  )
