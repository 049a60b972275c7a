-- ===== src/Feed/Tests.antt =====
-- The theorem on posts at concrete lines.
use dflybot.Prelude.{List, [], ◌∷◌, ◌≡◌, ◌≢◌, All}
use dflybot.Prelude.Bytes.{Bytes, lit}
use dflybot.GitMonitor.Send.Batch.{concat}
use dflybot.Feed.{announce_batches}
use dflybot.Feed.Posts.{FitsOrSingle, announce_batches_post}

abbrev lines : List Bytes
lines = lit "a line" ∷ lit "another" ∷ lit "a line that is too long for a post" ∷ []

announce_batches_post_example :
    let posts = announce_batches 20 3 [] 0 lines in
    (concat posts ≡ lines) × All (λ b. b ≢ []) posts × All (FitsOrSingle 20 3) posts
announce_batches_post_example = announce_batches_post 20 3 lines
