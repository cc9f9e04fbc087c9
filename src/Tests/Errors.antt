-- ===== src/Tests/Errors.antt =====
-- src/aduib_rpc/protocol/v2/errors.py on concrete codes and exceptions.
