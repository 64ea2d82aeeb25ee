-- ===== src/Catalog/Reviews.antt =====
-- What the unique index of the reviews, which is declared on the user alone, does to `CreateReview`; and the
-- counter of reviews.
use voice_backend.Common.{ℕ, ◌≤◌, ◌≡◌, Text, Bool, true, false, some, arith, text}
use voice_backend.Catalog.{Agent, Database, refused, Statement, granted, count}
use voice_backend.Catalog.Installs.{
  create_review, review_shown, store_review, public_agent, find_install, find_review, is_found,
  by_user,
}

-- A user who has reviewed some agent and now reviews another one, which is public, which the user has installed and
-- has not reviewed, with a rating from 1 to 5: the answer is an internal error and nothing is stored,
-- whatever other statements the database refuses.
create_review-second :
    (fails : Statement → Bool) (user agent new_id body : Text) (rating : ℕ) (a : Agent)
    (db : Database)
    → 1 ≤ count (by_user user) db.reviews
    → public_agent fails agent db ≡ granted a
    → is_found (find_install fails user agent db) ≡ true
    → is_found (find_review fails user agent db) ≡ false
    → 1 ≤ rating
    → rating ≤ 5
    → create_review fails user agent new_id (some (rating, body)) db
      ≡ (db, refused 500 (text "create_review_failed"))
unfolding create_review review_shown store_review
create_review-second fails user agent new_id body rating a db has_one shown installed fresh low
      high =
    ground (arith, has_one, shown, installed, fresh, low, high)
