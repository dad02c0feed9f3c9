-- ===== src/Application/Session/Conflict.antt =====
-- An identity of a request that was taken is refused to every other request.
