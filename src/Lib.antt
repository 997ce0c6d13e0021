-- ===== src/Lib.antt =====
-- A verification library of the community backend (a FastAPI service over PostgreSQL and Redis).
--
-- The program has routers that call services; a service opens one transaction, calls the models of its
-- tables, and publishes notifications after the commit. Posts and comments cache counts of their likes,
-- comments and reports in columns; Redis holds refresh tokens, cached statuses and rate limits.
--
-- Files, by the part of the program:
--   Prelude, Text        native numbers, Boolean tests, lists, and Python texts as code points
--   Ids                  app/core/ids.py: public ids in Base62
--   RateLimit            app/core/middleware/rate_limit.py: the memory store (RateLimit, Evict, Window),
--                        the middleware (Middleware) and its policy without Redis (Policy)
--   Db                   the ORM classes of app/domain/*/model.py (Rows), SQL statements (Sql),
--                        exceptions and transactions (Action), no rows (Empty); Keyset and Ascending
--                        have keyset pages, Counters, Found, Tally, Links and Walk are lemmas
--   Posts                PostsModel of app/domain/posts/repository.py, Hashtags its tags,
--                        Update its `update_post`, the two operations of post_service.py in Service,
--                        and in Updated what an update leaves
--   Idempotency          app/api/dependencies/client.py and POST /posts of
--                        app/domain/posts/routers/post_router.py, Retry what retries with one key do
--   Notifications        NotificationsModel of app/domain/notifications/model.py, Listing its pages
--   Views                the view counter of app/domain/posts/services/post_service.py, Merged what
--                        a flush adds, Conserved when it loses no view
--   Chat                 rooms and messages of app/domain/chat, Rooms their invariant
--   Likes                app/domain/likes: LikeService, and PostLikesModel in PostLikes
--   Comments             app/domain/comments: CommentsModel, CommentLikes, the service in Service with the
--                        checks of app/api/dependencies/permissions.py, in Access what the one
--                        before an edit makes sure of, the list of comments in Tree, with what it
--                        shows in Shown and that its pages are complete in Pages
--   Reports, Admin       app/domain/reports and the moderation of app/domain/admin/service.py
--   Redis                what is relied on of a Redis server: a record of operations and laws, and a
--                        server that is a function (Memory)
--   Users                app/domain/users: UsersModel, the purge (Purge, Taken, Purged), UserService (Service),
--                        what an account goes through (Account), and that emails and nicknames stay
--                        apart (Keys, Unique)
--   Auth                 app/domain/auth: refresh rotation (Rotation), sessions (Sessions), sign-up and login
--                        (Signup, Joined, FirstLogin), and app/api/dependencies/auth.py (Gate, Access)
--   Dogs                 app/domain/dogs, with the single representative dog in Representative, from
--                        what the statements leave of the rows (Rows)
--   Media                app/domain/media and app/infra/storage.py: confirmations (Upload, Confirmed), tokens
--                        and deletion (Tokens, SignupImages), and the cleanup jobs (Cleanup, Batches,
--                        Rounds, Swept)
--   Cache                app/infra/cache.py, and that a cache is not noticed (Transparent)
--   Community            the invariant of the tables (Invariant, Threads), a file for each group of
--                        operations, and the step relation over all of them (Keeps, Edits,
--                        Purges, Moderation, Reach)
--
-- A table is a list of rows in insertion order, UPDATE and DELETE are functions on it, and a UUID or a
-- time is a number. The UUID of a new row and the time of a call are arguments. A service is an Action: it
-- maps the tables to an answer or an exception and the tables, and a transaction puts the tables back when
-- its block raises. A call of Redis that may raise has a flag or an outcome as its argument, but for those
-- of a logout and of the release of a lock.
--
-- Fuel: a number below 2^128 has at most 22 digits in base 62, so the encoder has fuel 22; each round of
-- the eviction deletes a key, so it has the length of the store. The cleanup of images has one round more
-- than there are images, and the purge one more than users to purge: their theorems show that this is
-- enough, since each round but the last takes at least one. Other loops are structural.
--
-- Not modelled: the lists of posts, chats and reports, the other routers, schemas and start-up, the JWT
-- and hashing libraries and S3 (parameters), sessions and engines, sockets, presigned forms, the SSE
-- stream, delivery of notifications, and migrations.
pub mod Prelude
pub mod Text
pub mod Idempotency
pub mod Ids
pub mod RateLimit
pub mod Db
pub mod Dogs
pub mod Media
pub mod Redis
pub mod Users
pub mod Auth
pub mod Posts
pub mod Notifications
pub mod Views
pub mod Cache
pub mod Chat
pub mod Likes
pub mod Comments
pub mod Reports
pub mod Admin
pub mod Community
